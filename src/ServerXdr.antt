-- ===== src/ServerXdr.antt =====
-- server/vsnfsxdr.c and server/xdr.h: the server's XDR routines. A decoder's pointer is the rest of
-- the request's memory, which goes on behind the bytes that arrived. 0 or 1 is a Boolean.
use vsnfs.Base.{
  ℕ, ◌+◌, ◌-◌, ◌%◌, ◌^◌, List, [], ◌∷◌, ◌++◌, Option, none, some, Bool, true, false, ◌==◌, ltb,
  if◌then◌else◌, ℤ, pos, neg, Endian, Run, done, ◌>>=◌, be32, get_be32, get_bytes, length, take,
  drop, ◌||◌,
}
use vsnfs.Protocol.{VsnfsFh, VsnfsStat, vsnfserr, fhsize, maxnamlen, maxpathlen}
use vsnfs.Kernel.{Sunrpc, page_size}
use vsnfs.Handle.{handle_of}
use vsnfs.Errno.Constants

-- The parts of a `struct svc_rqst` that the routines use: the length of the request's head, the
-- response pages taken, the bytes of the reply's head, and the bytes of the reply's page.
pub record SvcRqst : Type 0 where
  pub iov_len : ℕ
  pub resused : ℕ
  pub head : List ℕ
  pub page_len : ℕ
  pub page : List ℕ

pub record GetrootArgs : Type 0 where
  pub path : List ℕ
  pub len : ℕ

pub record LookupArgs : Type 0 where
  pub fh : VsnfsFh
  pub filename : List ℕ
  pub len : ℕ

-- `buffer` is the number of the response page that the pointer leads to.
pub record ReaddirArgs : Type 0 where
  pub fh : VsnfsFh
  pub count : ℕ
  pub buffer : ℕ

pub record ReadArgs : Type 0 where
  pub fh : VsnfsFh
  pub offset : ℕ
  pub count : ℕ
  pub buffer : ℕ

-- `buffer` holds the page's bytes up to the pointer, `buflen` the words left, and `offset` the place
-- in the page of the last entry's offset. `err` is in network order.
pub record ReaddirRes : Type 0 where
  pub count : ℕ
  pub err : ℕ
  pub buffer : List ℕ
  pub buflen : ℕ
  pub offset : Option ℕ

-- The eight bytes of a handle are VSNFS_FHSIZE >> 2 words.
unfoldable pub decode_fh : List ℕ → Run (VsnfsFh × List ℕ)
decode_fh p = do
  (bytes, p) ← get_bytes fhsize p
  (type, p) ← get_be32 p
  done (record { handle = bytes; type = type }, p)

unfoldable pub encode_fh : List ℕ → VsnfsFh → List ℕ
encode_fh p fh = p ++ take fhsize fh.handle

-- The loops over a decoded string: whether a byte is refused.
unfoldable pub has_nul_or_slash : List ℕ → Bool
has_nul_or_slash [] = false
has_nul_or_slash (c ∷ cs) = if (c == 0) || (c == b'/') then true else has_nul_or_slash cs

unfoldable pub has_nul : List ℕ → Bool
has_nul [] = false
has_nul (c ∷ cs) = if c == 0 then true else has_nul cs

-- The string in place, null if it is refused.
abbrev pub refuse_if : (List ℕ → Bool) → Option (List ℕ × ℕ × List ℕ) → Option (List ℕ × ℕ × List ℕ)
refuse_if bad none = none
refuse_if bad (some (name, len, p)) = if bad name then none else some (name, len, p)

-- `memcpy` over four bytes of a page.
unfoldable pub set_be32 : List ℕ → ℕ → ℕ → List ℕ
set_be32 page at v = take at page ++ (be32 v ++ drop (at + 4) page)

-- The offset of the previous entry is known when the next one comes.
abbrev pub fill_offset : ReaddirRes → ℕ → ReaddirRes
fill_offset res offset = elim res.offset [
  | none ↦ res
  | some at ↦ record res { buffer = set_be32 res.buffer at offset }
]

-- `namlen > VSNFS_MAXNAMLEN`: the name is cut.
abbrev pub cut : ℕ → ℕ
cut namlen = if ltb maxnamlen namlen then maxnamlen else namlen

abbrev pub u32_max : ℕ
u32_max = 2 ^ 32 - 1

module _ (x : Sunrpc) where
  open x use {quadlen, encode_array, decode_string_inplace, argsize_check, ressize_check}

  -- `xdr_argsize_check(rqstp, p)` for the memory from the request's base on.
  unfoldable pub args_fit : SvcRqst → List ℕ → List ℕ → Bool
  args_fit rqstp base p = argsize_check rqstp.iov_len (length base - length p)

  unfoldable pub vsnfssvc_decode_nullargs : SvcRqst → List ℕ → Run (Option ℕ)
  unfolding args_fit
  vsnfssvc_decode_nullargs rqstp base = do
    (dummy, p) ← get_be32 base
    done (if args_fit rqstp base p then some dummy else none)

  unfoldable pub decode_filename : List ℕ → Run (Option (List ℕ × ℕ × List ℕ))
  unfolding has_nul_or_slash
  decode_filename p = do
    str ← decode_string_inplace p maxnamlen
    done (refuse_if has_nul_or_slash str)

  unfoldable pub decode_pathname : List ℕ → Run (Option (List ℕ × ℕ × List ℕ))
  unfolding has_nul
  decode_pathname p = do str ← decode_string_inplace p maxpathlen; done (refuse_if has_nul str)

  unfoldable pub getroot_args : SvcRqst → List ℕ → Option (List ℕ × ℕ × List ℕ) → Option GetrootArgs
  unfolding args_fit
  getroot_args rqstp base none = none
  getroot_args rqstp base (some (path, len, p)) =
      if args_fit rqstp base p then some (record { path = path; len = len }) else none

  unfoldable pub vsnfssvc_decode_getrootargs : SvcRqst → List ℕ → Run (Option GetrootArgs)
  unfolding decode_pathname getroot_args
  vsnfssvc_decode_getrootargs rqstp base = do
    str ← decode_pathname base
    done (getroot_args rqstp base str)

  lookup_args : SvcRqst → List ℕ → VsnfsFh → Option (List ℕ × ℕ × List ℕ) → Option LookupArgs
  unfolding args_fit
  lookup_args rqstp base fh none = none
  lookup_args rqstp base fh (some (name, len, p)) =
      if args_fit rqstp base p then some (record { fh = fh; filename = name; len = len }) else none

  unfoldable pub vsnfssvc_decode_lookupargs : SvcRqst → List ℕ → Run (Option LookupArgs)
  unfolding decode_fh decode_filename lookup_args
  vsnfssvc_decode_lookupargs rqstp base = do
    (fh, p) ← decode_fh base
    str ← decode_filename p
    done (lookup_args rqstp base fh str)

  -- A page of the reply is taken before the check, so also where it fails.
  unfoldable pub vsnfssvc_decode_readdirargs : SvcRqst → List ℕ → Run (Option ReaddirArgs × SvcRqst)
  unfolding decode_fh args_fit
  vsnfssvc_decode_readdirargs rqstp base = do
    (fh, p) ← decode_fh base
    (count, p) ← get_be32 p
    let count' = if ltb page_size count then page_size else count
    let args : ReaddirArgs = record { fh = fh; count = count'; buffer = rqstp.resused }
    done (
      (if args_fit rqstp base p then some args else none),
      record rqstp { resused = rqstp.resused + 1 },
    )

  unfoldable pub vsnfssvc_decode_readargs : SvcRqst → List ℕ → Run (Option ReadArgs × SvcRqst)
  unfolding decode_fh args_fit
  vsnfssvc_decode_readargs rqstp base = do
    (fh, p) ← decode_fh base
    (offset, p) ← get_be32 p
    (len, p) ← get_be32 p
    let len' = if ltb page_size len then page_size else len
    let args : ReadArgs = record { fh = fh; offset = offset; count = len'; buffer = rqstp.resused }
    done (
      (if args_fit rqstp base p then some args else none),
      record rqstp { resused = rqstp.resused + 1 },
    )

  -- An encoder appends to the reply's head, and answers whether that still fits.
  unfoldable pub vsnfssvc_encode_nullres : SvcRqst → ℕ → Bool × SvcRqst
  vsnfssvc_encode_nullres rqstp dummy =
      let p = rqstp.head ++ be32 dummy in (ressize_check (length p), record rqstp { head = p })

  unfoldable pub vsnfssvc_encode_fhandle : SvcRqst → VsnfsFh → Bool × SvcRqst
  unfolding encode_fh
  vsnfssvc_encode_fhandle rqstp resp =
      let p = encode_fh rqstp.head resp ++ be32 resp.type in
      (ressize_check (length p), record rqstp { head = p })

  -- `page_len` is made from the head's position, `at`, though the data stand in the page.
  unfoldable pub vsnfssvc_encode_readres : SvcRqst → (at : ℕ) → (count : ℕ) → Bool × SvcRqst
  vsnfssvc_encode_readres rqstp at count =
      let p = rqstp.head ++ be32 count in
      (
        ressize_check (length p),
        record rqstp { head = p; page_len = (at + length p - 1) % page_size + 1 },
      )

  -- The filler that `vfs_readdir` calls for each entry. `stack` is what the local handle's array
  -- holds before. The result is 0 or -EINVAL.
  unfoldable pub vsnfssvc_encode_entry :
      Endian → (stack name : List ℕ) → (namlen offset ino d_type : ℕ) → ReaddirRes → ℤ × ReaddirRes
  vsnfssvc_encode_entry e stack name namlen offset ino d_type res =
      let filled = fill_offset res offset in
      let fits = res.buflen - (quadlen (cut namlen) + (5 + quadlen fhsize)) in
      let small = ltb res.buflen (quadlen (cut namlen) + (5 + quadlen fhsize)) in
      let fh = handle_of stack ino in
      let p =
        filled.buffer
        ++ (be32 1
            ++ (be32 ino ++ (encode_array name (cut namlen) ++ (take fhsize fh ++ be32 d_type)))) in
      if ltb u32_max offset
      then (neg Constants.einval, record res { err = vsnfserr e VsnfsStat.fbig })
      else if small
      then (neg Constants.einval, record filled { err = vsnfserr e VsnfsStat.toosmall })
      else if ltb u32_max ino
      then (neg Constants.einval, record filled { err = vsnfserr e VsnfsStat.fbig })
      else (
        pos 0,
        record filled { buflen = fits; buffer = p ++ be32 u32_max; offset = some (length p) },
      )

-- The end of the entries: a zero word and whether all of them are there. `page_len` is the number of
-- bytes of the page up to here.
unfoldable pub vsnfssvc_encode_readdirres : SvcRqst → ReaddirRes → SvcRqst × List ℕ
vsnfssvc_encode_readdirres rqstp resp =
    let p = resp.buffer ++ (be32 0 ++ be32 (if resp.err == 0 then 1 else 0)) in
    (record rqstp { page_len = (length p - 1) % page_size + 1 }, p)
