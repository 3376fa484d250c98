-- ===== src/Rpc/Readdir.antt =====
-- A whole `readdir` through the RPC layer: `vsnfs_readdir` (vsnfsDir.c) over `vsnfs_proc_readdir`
-- (vsnfsProc.c), with the server's dispatch and procedure behind it.
use vsnfs.Base.{
  ℕ, ◌≤◌, ◌≡◌, refl, List, [], ◌++◌, some, true, false, if◌then◌else◌, ℤ, pos, neg, is_neg, Endian,
  cpu_to_be32_zero, done, length, be32, get_be32-be32, All, arith,
}
use vsnfs.Protocol.{VsnfsFh, VsnfsStat, vsnfserr, IsFh}
use vsnfs.Kernel.{Sunrpc, Strtoul, page_size}
use vsnfs.Vfs.{Vfs}
use vsnfs.ClientXdr.{VsnfsEntry, readdir, vsnfs_xdr_readdirargs, vsnfs_xdr_readdirres}
use vsnfs.Errno.Constants
use vsnfs.ServerXdr.{ReaddirArgs, ReaddirRes, vsnfssvc_encode_readdirres}
use vsnfs.Server.{Table}
use vsnfs.Server.Files.{vsnfsd_open, vsnfsd_proc_readdir, filler, entry_words, start_res}
use vsnfs.Dir.{Filldir, Left, vsnfs_readdir}
use vsnfs.Wire.Args.{blank, readdirargs_roundtrip}
use vsnfs.Svc.{vsnfsd_dispatch}
use vsnfs.Svc.Null.{store32_zero}
use vsnfs.Readdir.Encode.{total_words}
use vsnfs.Readdir.Loop.{IsSent, deliver}
use vsnfs.Readdir.EndToEnd.{has_entry, readdir_delivers}
use vsnfs.Rpc.{reply, vsnfs_proc_readdir}
use vsnfs.Rpc.Serve.{Surroundings, serve, serve_by}

readdirres_ok : (more : List ℕ) → vsnfs_xdr_readdirres (be32 0 ++ more) ≡ done (pos 0)
unfolding vsnfs_xdr_readdirres
readdirres_ok more = rw (get_be32-be32 0 more (omega arith)) refl

module _ {File : Type 0} (x : Sunrpc) (s : Strtoul) (vfs : Vfs File ReaddirRes) (e : Endian)
    (env : Surroundings) (empty : env.rqstp.head ≡ []) (table : Table) (fh : VsnfsFh) (ok : IsFh fh)
    (rslack : ℕ) where
  -- What the procedure leaves is what the reply's page holds.
  serve-readdir :
      (res : ReaddirRes)
      → vsnfsd_proc_readdir s vfs e x env.stack env.file_path table
          (record { fh = fh; count = page_size; buffer = env.rqstp.resused })
        ≡ done (vsnfserr e VsnfsStat.ok, res)
      → serve x s vfs e env table readdir
          (vsnfs_xdr_readdirargs x blank rslack (record { fh = fh; count = page_size }))
        ≡ done (
          reply (be32 0 ++ env.more) ((vsnfssvc_encode_readdirres env.rqstp res).1 ++ env.more),
          table,
        )
  unfolding serve serve_by vsnfsd_dispatch vsnfserr vsnfssvc_encode_readdirres
  serve-readdir res ran =
      rw
        (
          readdirargs_roundtrip x env.rqstp rslack fh page_size env.stale ok (omega arith),
          ran,
          empty,
          cpu_to_be32_zero e,
          store32_zero e,
        )
        refl

  module _ (there : env.file_path ≡ true) (eight : length env.stack ≡ 8) {User : Type 0}
      (filldir : User → Filldir → ℤ × User)
      (accepts : (u : User) (ev : Filldir) → is_neg (filldir u ev).0 ≡ false) where
    -- A client's `readdir` of a page, over a server that opens the directory of the handle, whose
    -- `vfs_readdir` does not fail, and whose entries have numbers that fit their words and fit the
    -- page all together: the call returns 0 and leaves the server's table alone, and the client's
    -- `filldir`, if it never refuses, gets every entry once and in order. The client's result is 0
    -- if there is an entry, and -EBADCOOKIE for an empty directory.
    pub vsnfs_readdir-rpc :
        (file : File) (old : List ℕ) (user : User) (entry : VsnfsEntry)
        → vsnfsd_open s vfs e true table fh ≡ done (vsnfserr e VsnfsStat.ok, some file)
        → is_neg (vfs.vfs_readdir file (filler x e env.stack) (start_res s vfs e page_size)).0
          ≡ false
        → All IsSent (vfs.entries file)
        → total_words x e env.stack (vfs.entries file) ≤ entry_words s vfs e page_size
        → (page : List ℕ) × (left : Left User) × (vsnfs_proc_readdir x
              (serve x s vfs e env)
              table
              rslack
              fh
              old
              page_size
            ≡ done ((pos 0, page), table))
          × (vsnfs_readdir x filldir true (pos 0, page) 0 user entry ≡ done left)
          × (left.user ≡ deliver filldir user (vfs.entries file))
          × (left.res ≡ (if has_entry (vfs.entries file) then pos 0 else neg Constants.ebadcookie))
    unfolding vsnfs_proc_readdir
    vsnfs_readdir-rpc file old user entry opened reads sent fits =
        let args : ReaddirArgs = record {
          fh = fh;
          count = page_size;
          buffer = env.rqstp.resused;
        } in
        let (res, left, ran, read, delivered, result) =
          readdir_delivers x s e vfs env.stack eight filldir accepts table args file env.rqstp
            env.more user entry opened reads sent fits in
        (
          (vsnfssvc_encode_readdirres env.rqstp res).1 ++ env.more,
          left,
          rw (serve-readdir res (rw there ran), readdirres_ok env.more) refl,
          read,
          delivered,
          result,
        )
