-- ===== src/ClientXdr.antt =====
-- vsnfsXdr.c: the client's XDR routines. What an encoder has written is a list of bytes that it
-- appends to, and a decoder's pointer is the rest of the reply's memory.
use vsnfs.Base.{
  ℕ, ◌+◌, ◌*◌, ◌/◌, List, ◌++◌, Option, some, ◌==◌, if◌then◌else◌, ℤ, pos, neg, Run, done, ◌>>=◌,
  be32, get_be32, get_bytes, length, take, drop, ltb, ◌^◌,
}
use vsnfs.Protocol.{VsnfsFh, fhsize, maxnamlen, maxpathlen}
use vsnfs.Kernel.{Sunrpc}
use vsnfs.Errno.{vsnfs_stat_to_errno, int_of_word}
use vsnfs.Errno.Constants

-- The parts of a `struct rpc_rqst` that the routines set: the send vector's bytes and its length,
-- and, if the reply has pages, the room in its head before them, for the header of the RPC layer and
-- for the results, and the bytes wanted in them.
pub record RpcRqst : Type 0 where
  pub svec : List ℕ
  pub slen : ℕ
  pub rcv_pages : Option (ℕ × ℕ × ℕ)

pub record LookupArgs : Type 0 where
  pub fh : VsnfsFh
  pub filename : List ℕ
  pub len : ℕ

pub record GetrootArgs : Type 0 where
  pub path : List ℕ
  pub len : ℕ

pub record ReaddirArgs : Type 0 where
  pub fh : VsnfsFh
  pub count : ℕ

pub record ReadArgs : Type 0 where
  pub fh : VsnfsFh
  pub offset : ℕ
  pub length : ℕ

-- `name` is the memory from the name on: nothing ends it but `len`.
pub record VsnfsEntry : Type 0 where
  pub ino : ℕ
  pub offset : ℕ
  pub name : List ℕ
  pub len : ℕ
  pub eof : ℕ
  pub fh : VsnfsFh

-- A pointer, or an errno as a pointer.
pub data Ptr : Type 0 where
  ptr : List ℕ → Ptr
  err_ptr : ℤ → Ptr

-- Both copy the handle's eight bytes and move on by XDR_QUADLEN(8) words, which is as much.
unfoldable pub xdr_encode_fhandle : List ℕ → VsnfsFh → List ℕ
xdr_encode_fhandle p fh = p ++ (take fhsize fh.handle ++ be32 fh.type)

unfoldable pub xdr_decode_fhandle : List ℕ → Run (VsnfsFh × List ℕ)
xdr_decode_fhandle p = do
  (bytes, p) ← get_bytes fhsize p
  (type, p) ← get_be32 p
  done (record { handle = bytes; type = type }, p)

module _ (x : Sunrpc) where
  open x use {encode_array, adjust_iovec, quadlen, rephdrsize}

  -- `req->rq_slen = xdr_adjust_iovec(req->rq_svec, p)`
  unfoldable pub adjust : RpcRqst → List ℕ → RpcRqst
  adjust req p = record req { svec = p; slen = adjust_iovec (length p) }

  unfoldable pub vsnfs_xdr_nullargs : RpcRqst → ℕ → RpcRqst
  unfolding adjust
  vsnfs_xdr_nullargs req dummy = adjust req (req.svec ++ be32 dummy)

  unfoldable pub vsnfs_xdr_getrootargs : RpcRqst → GetrootArgs → RpcRqst
  unfolding adjust
  vsnfs_xdr_getrootargs req args = adjust req (req.svec ++ encode_array args.path args.len)

  unfoldable pub vsnfs_xdr_lookupargs : RpcRqst → LookupArgs → RpcRqst
  unfolding adjust
  vsnfs_xdr_lookupargs req args =
      let p = xdr_encode_fhandle req.svec args.fh in
      adjust req (p ++ encode_array args.filename args.len)

  -- `replen = (RPC_REPHDRSIZE + auth->au_rslack + VSNFS_readdirres_sz) << 2`, for READ too
  unfoldable pub inline_pages : RpcRqst → ℕ → ℕ → RpcRqst
  inline_pages req rslack count = record req {
    rcv_pages = some ((rephdrsize + rslack) * 4, 1 * 4, count);
  }

  unfoldable pub vsnfs_xdr_readdirargs : RpcRqst → ℕ → ReaddirArgs → RpcRqst
  unfolding adjust inline_pages
  vsnfs_xdr_readdirargs req rslack args =
      let p = xdr_encode_fhandle req.svec args.fh in
      inline_pages (adjust req (p ++ be32 args.count)) rslack args.count

  unfoldable pub vsnfs_xdr_readargs : RpcRqst → ℕ → ReadArgs → RpcRqst
  unfolding adjust inline_pages
  vsnfs_xdr_readargs req rslack args =
      let p = xdr_encode_fhandle req.svec args.fh in
      inline_pages (adjust req (p ++ (be32 args.offset ++ be32 args.length))) rslack args.length

  -- Reads no count: it writes the count that `res` holds over the reply's, and makes the reply's
  -- position the length of the send vector. `base` is the distance from the send vector to the
  -- reply's status. The result is the return value, the request and the reply's memory.
  unfoldable pub vsnfs_xdr_readres : RpcRqst → ℕ → List ℕ → ℕ → Run (ℤ × RpcRqst × List ℕ)
  vsnfs_xdr_readres req base p count = do
    (status, p) ← get_be32 p
    if status == 0
        then (do
          (_, p) ← get_be32 p
          done (
            pos 0,
            record req { slen = adjust_iovec (base + 8) },
            be32 status ++ (be32 count ++ p),
          ))
        else (do
          errno ← vsnfs_stat_to_errno (int_of_word status)
          done (errno, req, be32 status ++ p))

  -- One directory entry from the page. The last field of the record is read ahead: the entry is the
  -- last one if a zero word and a word that is not zero follow it.
  unfoldable pub peek_eof : List ℕ → Run ℕ
  peek_eof p = do
    (more, p) ← get_be32 p
    if more == 0 then (do (last, _) ← get_be32 p; done (if last == 0 then 0 else 1)) else done 0

  -- `XDR_QUADLEN(entry->len)`: the length is an unsigned int, and the sum in the macro wraps.
  unfoldable pub name_words : ℕ → ℕ
  name_words len = if ltb (len + 3) (2 ^ 32) then quadlen len else 0

  unfoldable pub vsnfs_decode_dirent : List ℕ → VsnfsEntry → Run (Ptr × VsnfsEntry)
  unfolding peek_eof name_words
  vsnfs_decode_dirent p entry = do
    (present, p) ← get_be32 p
    if present == 0
        then done (err_ptr (neg Constants.ebadcookie), record entry { eof = 1 })
        else (do
          (ino, p) ← get_be32 p
          (len, name) ← get_be32 p
          (fh, p) ← xdr_decode_fhandle (drop (4 * name_words len) name)
          (offset, p) ← get_be32 p
          eof ← peek_eof p
          done (
            ptr p,
            record { ino = ino; offset = offset; name = name; len = len; eof = eof; fh = fh },
          ))

-- A decoder of a reply: a status that is not zero is returned as an errno.
unfoldable pub vsnfs_xdr_nullres : List ℕ → ℕ → Run (ℤ × ℕ)
vsnfs_xdr_nullres p dummy = do
  (status, p) ← get_be32 p
  if status == 0
      then (do (dummy, _) ← get_be32 p; done (pos 0, dummy))
      else (do errno ← vsnfs_stat_to_errno (int_of_word status); done (errno, dummy))

unfoldable pub vsnfs_xdr_fh : List ℕ → VsnfsFh → Run (ℤ × VsnfsFh)
unfolding xdr_decode_fhandle
vsnfs_xdr_fh p fh = do
  (status, p) ← get_be32 p
  if status == 0
      then (do (fh, _) ← xdr_decode_fhandle p; done (pos 0, fh))
      else (do errno ← vsnfs_stat_to_errno (int_of_word status); done (errno, fh))

unfoldable pub vsnfs_xdr_readdirres : List ℕ → Run ℤ
vsnfs_xdr_readdirres p = do
  (status, _) ← get_be32 p
  if status == 0 then done (pos 0) else vsnfs_stat_to_errno (int_of_word status)

-- The sizes of a procedure's arguments and reply, in words: room for them is made before a call.
pub data Proc : Type 0 where
  null getroot lookup read readdir : Proc

abbrev filename_sz : ℕ
filename_sz = 1 + maxnamlen / 4

abbrev path_sz : ℕ
path_sz = 1 + maxpathlen / 4

abbrev fhandle_sz : ℕ
fhandle_sz = 8

abbrev pub arglen : Proc → ℕ
arglen null = 1
arglen getroot = path_sz
arglen lookup = fhandle_sz + path_sz
arglen read = fhandle_sz + 3
arglen readdir = fhandle_sz + 2

abbrev pub replen : Proc → ℕ
replen null = 1
replen getroot = 1 + fhandle_sz + 1
replen lookup = 1 + fhandle_sz + 1
replen read = 1 + 1
replen readdir = 1
