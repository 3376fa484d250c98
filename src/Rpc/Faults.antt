-- ===== src/Rpc/Faults.antt =====
-- What keeps the server from a READ or READDIR (server/vfs.c), with the status for it, and what the
-- client's decoders (vsnfsXdr.c) make of the status.
use vsnfs.Base.{
  ℕ, ◌≡◌, ◌≢◌, refl, ap, sym, ◌∙◌, ◌⊎◌, inl, inr, List, [], ◌++◌, Option, some, none, Bool, true,
  false, ◌==◌, if◌then◌else◌, ℤ, pos, negsuc, neg, is_neg, eqb, Endian, Run, done, ◌>>=◌, be32,
  get_be32-be32, IsWord, store32, store32-cpu_to_be32, cpu_to_be32, cpu_to_be32-eq-zero, ==_of_ne,
  arith, ltb, ltb_of_lt, ◌^◌, ◌%◌, ◌<◌, not, ◌||◌, length, ◌/◌,
}
use Prim.Native.Nat.{min}
use vsnfs.Protocol.{VsnfsFh, VsnfsStat, code, vsnfserr, IsFh, maxpathlen}
use vsnfs.Protocol.Codes.{code-IsWord, code-small}
use vsnfs.Kernel.{Sunrpc, Strtoul, page_size}
use vsnfs.Vfs.{Vfs}
use vsnfs.Errno.{vsnfserrno, vsnfs_stat_to_errno, int_of_word}
use vsnfs.Errno.Wire.{IsFault, arrives, vsnfserrno-IsFault}
use vsnfs.Errno.Constants
use vsnfs.ClientXdr.{
  RpcRqst, VsnfsEntry, read, readdir, vsnfs_xdr_readargs, vsnfs_xdr_readres, vsnfs_xdr_readdirargs,
  vsnfs_xdr_readdirres,
}
use vsnfs.ServerXdr.{ReaddirRes, ReadArgs, ReaddirArgs}
use vsnfs.Server.{Table, cstring, vsnfsd_fh_to_path}
use vsnfs.Server.Files.{
  filler, start_res, vsnfsd_open, read_file, readdir_file, vsnfsd_proc_read, vsnfsd_proc_readdir,
}
use vsnfs.Dir.{Filldir, Left, Desc, vsnfs_readdir}
use vsnfs.Wire.Args.{blank, readargs_roundtrip, readdirargs_roundtrip}
use vsnfs.Svc.{vsnfsd_dispatch}
use vsnfs.Rpc.{reply, vsnfs_proc_read, vsnfs_proc_readdir}
use vsnfs.Rpc.Serve.{Surroundings, serve}
pub mod Calls

int_of_code : (stat : VsnfsStat) → int_of_word (code stat) ≡ pos (code stat)
unfolding int_of_word
int_of_code stat = rw (ltb_of_lt (code stat) (2 ^ 31) (code-small stat)) refl

module _ {File : Type 0} (s : Strtoul) (vfs : Vfs File ReaddirRes) (e : Endian) (env : Surroundings)
    (table : Table) (fh : VsnfsFh) (reads : File → ℤ) where
  -- What keeps the server from opening a handle's file and from `reads`, and the errno for it: no
  -- memory for the path, a handle that is not in the table, a path that cannot be opened, and an
  -- error of the file system's own.
  pub data Fault : ℤ → Type 0 where
    short : env.file_path ≡ false → Fault (neg Constants.enospc)
    unknown :
        (path : List ℕ)
        → env.file_path ≡ true
        → vsnfsd_fh_to_path s e table fh maxpathlen ≡ done (neg 1, path)
        → Fault (neg Constants.enoent)
    unopened :
        (path path' : List ℕ)
        → env.file_path ≡ true
        → vsnfsd_fh_to_path s e table fh maxpathlen ≡ done (pos 0, path)
        → cstring path ≡ done path'
        → vfs.filp_open path' ≡ none
        → Fault (neg Constants.eio)
    unread :
        (file : File) (m : ℕ)
        → vsnfsd_open s vfs e env.file_path table fh ≡ done (vsnfserr e VsnfsStat.ok, some file)
        → reads file ≡ negsuc m
        → Fault (arrives m)

  -- The status with which the server leaves the open or the read.
  pub Fault-status :
      (z : ℤ)
      → Fault z
      → (stat : VsnfsStat) × IsFault stat z
        × ((vsnfsd_open s vfs e env.file_path table fh ≡ done (vsnfserr e stat, none))
            ⊎ ((file : File) × (m : ℕ) × (vsnfsd_open s vfs e env.file_path table fh
                  ≡ done (vsnfserr e VsnfsStat.ok, some file))
                × (reads file ≡ negsuc m)
                × (vsnfserrno e (negsuc m) ≡ vsnfserr e stat)))
  unfolding vsnfsd_open vsnfs_stat_to_errno
  Fault-status z (short missing) =
      (VsnfsStat.nospc, (ground arith, refl, refl), inl (rw missing refl))
  Fault-status z (unknown path there missing) =
      (VsnfsStat.noent, (ground arith, refl, refl), inl (rw (there, missing) refl))
  Fault-status z (unopened path path' there found ends closed) =
      (VsnfsStat.io, (ground arith, refl, refl), inl (rw (there, found, ends, closed) refl))
  Fault-status z (unread file m opened failed) =
      let (stat, is, fault) = vsnfserrno-IsFault e m in
      (stat, fault, inr (file, m, opened, failed, is))

pub readres_fault :
    (x : Sunrpc) (req : RpcRqst) (base : ℕ) (stat : VsnfsStat) (z : ℤ) (more : List ℕ) (count : ℕ)
    → IsFault stat z
    → vsnfs_xdr_readres x req base (be32 (code stat) ++ more) count
      ≡ done (z, req, be32 (code stat) ++ more)
unfolding vsnfs_xdr_readres
readres_fault x req base stat z more count (wrong, below, found) =
    rw
      (
        get_be32-be32 (code stat) more (code-IsWord stat),
        ==_of_ne (code stat) 0 wrong,
        int_of_code stat,
        found,
      )
      refl

pub readdirres_fault :
    (stat : VsnfsStat) (z : ℤ) (more : List ℕ)
    → IsFault stat z
    → vsnfs_xdr_readdirres (be32 (code stat) ++ more) ≡ done z
unfolding vsnfs_xdr_readdirres
readdirres_fault stat z more (wrong, below, found) =
    rw
      (
        get_be32-be32 (code stat) more (code-IsWord stat),
        ==_of_ne (code stat) 0 wrong,
        int_of_code stat,
      )
      found

pub vsnfserr-ne-zero : (e : Endian) (stat : VsnfsStat) → code stat ≢ 0 → vsnfserr e stat ≢ 0
unfolding vsnfserr
vsnfserr-ne-zero e stat wrong zeroed =
    wrong (cpu_to_be32-eq-zero e (code stat) (code-IsWord stat) zeroed)

pub store32-vsnfserr :
    (e : Endian) (stat : VsnfsStat) → store32 e (vsnfserr e stat) ≡ be32 (code stat)
unfolding vsnfserr
store32-vsnfserr e stat = store32-cpu_to_be32 e (code stat)
