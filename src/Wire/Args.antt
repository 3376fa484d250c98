-- ===== src/Wire/Args.antt =====
-- The arguments of each call: the server's decoder on what the client's encoder wrote.
use vsnfs.Base.{
  ℕ, refl, ◌*◌, ◌+◌, ◌-◌, ◌≡◌, List, [], ◌++◌, append_assoc, done, some, none, true, ◌||◌, ltb,
  if◌then◌else◌, length, length-append, be32, get_be32-be32, IsWord, arith, leb_of_le,
}
use Prim.Native.Nat.{min}
use vsnfs.Protocol.{VsnfsFh, IsFh, maxnamlen, maxpathlen}
use vsnfs.Kernel.{Sunrpc, page_size}
use vsnfs.ClientXdr.{
  RpcRqst, vsnfs_xdr_nullargs, vsnfs_xdr_getrootargs, vsnfs_xdr_lookupargs, vsnfs_xdr_readdirargs,
  vsnfs_xdr_readargs, ReadArgs, inline_pages,
}
use vsnfs.ServerXdr.{
  SvcRqst, has_nul, has_nul_or_slash, args_fit, vsnfssvc_decode_nullargs,
  vsnfssvc_decode_getrootargs, vsnfssvc_decode_lookupargs, vsnfssvc_decode_readdirargs,
  vsnfssvc_decode_readargs,
}
use vsnfs.Wire.Bounds.{fh_bytes, xdr_encode_fhandle_lem, decode_fh-fh_bytes, decode-encode_array}

-- A request that nothing was written to yet.
abbrev pub blank : RpcRqst
blank = record { svec = []; slen = 0; rcv_pages = none }

-- A server's request whose head has the length that the client set.
abbrev pub received : SvcRqst → RpcRqst → SvcRqst
received rqstp sent = record rqstp { iov_len = sent.slen }

module _ (x : Sunrpc) where
  open x use {adjust_iovec, adjust_iovec_lem, argsize_check_lem, encode_array}

  args_fit-sent :
      (rqstp : SvcRqst) (sent stale : List ℕ)
      → args_fit x (record rqstp { iov_len = adjust_iovec (length sent) }) (sent ++ stale) stale
        ≡ true
  unfolding args_fit
  args_fit-sent rqstp sent stale =
      rw (argsize_check_lem, adjust_iovec_lem)
        (leb_of_le (length (sent ++ stale) - length stale) (length sent)
          (omega (arith, length-append sent stale)))

  -- The server's decoder gets the client's word from what the client's NULL encoder wrote,
  -- whatever follows it in memory.
  pub nullargs_roundtrip :
      (rqstp : SvcRqst) (dummy : ℕ) (stale : List ℕ)
      → IsWord dummy
      → let sent = vsnfs_xdr_nullargs x blank dummy in
        vsnfssvc_decode_nullargs x (received rqstp sent) (sent.svec ++ stale) ≡ done (some dummy)
  unfolding vsnfs_xdr_nullargs vsnfssvc_decode_nullargs
  nullargs_roundtrip rqstp dummy stale h =
      rw (get_be32-be32 dummy stale h, args_fit-sent rqstp (be32 dummy) stale)

  -- What the server's decoder makes of what the client's GETROOT encoder wrote for a path whose
  -- length fits a word: nothing if the path is longer than VSNFS_MAXPATHLEN or has a NUL, and
  -- else the same path and length.
  pub getrootargs_roundtrip :
      (rqstp : SvcRqst) (path stale : List ℕ)
      → IsWord (length path)
      → let sent = vsnfs_xdr_getrootargs x blank (record { path = path; len = length path }) in
        vsnfssvc_decode_getrootargs x (received rqstp sent) (sent.svec ++ stale)
        ≡ done (
            if ltb maxpathlen (length path) || has_nul path
            then none
            else some (record { path = path; len = length path }))
  unfolding vsnfs_xdr_getrootargs vsnfssvc_decode_getrootargs
  getrootargs_roundtrip rqstp path stale h =
      rw (decode-encode_array x path stale maxpathlen h)
        (ground (arith, args_fit-sent rqstp (encode_array path (length path)) stale))

  -- What the server's decoder makes of what the client's LOOKUP encoder wrote for a well-formed
  -- handle and a name whose length fits a word: nothing if the name is longer than
  -- VSNFS_MAXNAMLEN or has a NUL or a slash, and else the same handle, name and length.
  pub lookupargs_roundtrip :
      (rqstp : SvcRqst) (fh : VsnfsFh) (name stale : List ℕ)
      → IsFh fh
      → IsWord (length name)
      → let sent =
          vsnfs_xdr_lookupargs x blank (record { fh = fh; filename = name; len = length name }) in
        vsnfssvc_decode_lookupargs x (received rqstp sent) (sent.svec ++ stale)
        ≡ done (
            if ltb maxnamlen (length name) || has_nul_or_slash name
            then none
            else some (record { fh = fh; filename = name; len = length name }))
  unfolding vsnfs_xdr_lookupargs vsnfssvc_decode_lookupargs
  lookupargs_roundtrip rqstp fh name stale hf h =
      let str = encode_array name (length name) in
      rw (xdr_encode_fhandle_lem [] fh hf) (
        ground (
          arith,
          append_assoc (fh_bytes fh) str stale,
          decode_fh-fh_bytes fh (str ++ stale) hf,
          decode-encode_array x name stale maxnamlen h,
          args_fit-sent rqstp (fh_bytes fh ++ str) stale,
        ))

  -- For a well-formed handle and a count that fits a word, the server's READDIR decoder gets the
  -- client's handle and its count, cut to a page, and takes one page for the reply.
  pub readdirargs_roundtrip :
      (rqstp : SvcRqst) (rslack : ℕ) (fh : VsnfsFh) (count : ℕ) (stale : List ℕ)
      → IsFh fh
      → IsWord count
      → let sent = vsnfs_xdr_readdirargs x blank rslack (record { fh = fh; count = count }) in
        vsnfssvc_decode_readdirargs x (received rqstp sent) (sent.svec ++ stale)
        ≡ done (
          some (record { fh = fh; count = min count page_size; buffer = rqstp.resused }),
          record (received rqstp sent) { resused = rqstp.resused + 1 },
        )
  unfolding vsnfs_xdr_readdirargs vsnfssvc_decode_readdirargs
  readdirargs_roundtrip rqstp rslack fh count stale hf h = rw (xdr_encode_fhandle_lem [] fh hf) (
      ground (
        arith,
        append_assoc (fh_bytes fh) (be32 count) stale,
        decode_fh-fh_bytes fh (be32 count ++ stale) hf,
        get_be32-be32 count stale h,
        args_fit-sent rqstp (fh_bytes fh ++ be32 count) stale,
      ))

  pub vsnfs_xdr_readargs-rcv_pages :
      (req : RpcRqst) (rslack : ℕ) (args : ReadArgs)
      → (vsnfs_xdr_readargs x req rslack args).rcv_pages
        ≡ some ((x.rephdrsize + rslack) * 4, 4, args.length)
  unfolding vsnfs_xdr_readargs inline_pages
  vsnfs_xdr_readargs-rcv_pages req rslack args = refl

  -- For a well-formed handle and numbers that fit their words, the server's READ decoder gets the
  -- client's handle and offset, and its length, cut to a page, and takes one page for the reply.
  pub readargs_roundtrip :
      (rqstp : SvcRqst) (rslack : ℕ) (fh : VsnfsFh) (offset len : ℕ) (stale : List ℕ)
      → IsFh fh
      → IsWord offset
      → IsWord len
      → let sent =
          vsnfs_xdr_readargs x blank rslack (record { fh = fh; offset = offset; length = len }) in
        vsnfssvc_decode_readargs x (received rqstp sent) (sent.svec ++ stale)
        ≡ done (
          some (record {
            fh = fh;
            offset = offset;
            count = min len page_size;
            buffer = rqstp.resused;
          }),
          record (received rqstp sent) { resused = rqstp.resused + 1 },
        )
  unfolding vsnfs_xdr_readargs vsnfssvc_decode_readargs
  readargs_roundtrip rqstp rslack fh offset len stale hf ho h =
      rw (xdr_encode_fhandle_lem [] fh hf) (
        ground (
          arith,
          append_assoc (fh_bytes fh) (be32 offset ++ be32 len) stale,
          append_assoc (be32 offset) (be32 len) stale,
          decode_fh-fh_bytes fh (be32 offset ++ (be32 len ++ stale)) hf,
          get_be32-be32 offset (be32 len ++ stale) ho,
          get_be32-be32 len stale h,
          args_fit-sent rqstp (fh_bytes fh ++ (be32 offset ++ be32 len)) stale,
        ))
