-- ===== src/Rpc/Faults/Calls.antt =====
-- A READ or READDIR that fails on the server, on its way to the client: the statuses of server/vfs.c
-- through the dispatch, and what vsnfsProc.c and vsnfsDir.c make of them.
use vsnfs.Base.{
  ℕ, ◌≡◌, ◌≢◌, refl, inl, inr, List, [], ◌++◌, take, ◌+◌, ◌*◌, none, true, false, ◌==◌,
  if◌then◌else◌, ℤ, Endian, done, be32, IsWord, ==_of_ne, arith, ◌^◌, ◌%◌, not, ◌||◌, length, ◌/◌,
}
use Prim.Native.Nat.{min}
use vsnfs.Protocol.{VsnfsFh, VsnfsStat, code, vsnfserr, IsFh}
use vsnfs.Kernel.{Sunrpc, Strtoul, page_size}
use vsnfs.Vfs.{Vfs}
use vsnfs.Errno.Wire.{IsFault}
use vsnfs.ClientXdr.{VsnfsEntry, read, readdir, vsnfs_xdr_readargs, vsnfs_xdr_readdirargs}
use vsnfs.ServerXdr.{ReaddirRes}
use vsnfs.Server.{Table}
use vsnfs.Server.Files.{
  filler, start_res, read_file, readdir_file, vsnfsd_proc_read, vsnfsd_proc_readdir,
}
use vsnfs.Dir.{Filldir, Left, vsnfs_readdir}
use vsnfs.Wire.Args.{blank, readargs_roundtrip, vsnfs_xdr_readargs-rcv_pages, readdirargs_roundtrip}
use vsnfs.Svc.{vsnfsd_dispatch}
use vsnfs.Rpc.{reply, vsnfs_proc_read, vsnfs_proc_readdir}
use vsnfs.Rpc.Serve.{Surroundings, split-be32, serve, serve_by}
use vsnfs.Rpc.Faults.{
  Fault, Fault-status, readres_fault, readdirres_fault, vsnfserr-ne-zero, store32-vsnfserr,
}

module _ {File : Type 0} (x : Sunrpc) (s : Strtoul) (vfs : Vfs File ReaddirRes) (e : Endian)
    (env : Surroundings) (empty : env.rqstp.head ≡ []) (table : Table) (fh : VsnfsFh) (ok : IsFh fh)
    (rslack : ℕ) where
  -- What stands in the client's page when a READ of `count` bytes failed.
  abbrev fault_page : ℕ → List ℕ
  fault_page count = take count (take env.rqstp.page_len (env.rqstp.page ++ env.more)) ++ env.more

  serve-read-fault :
      (stat : VsnfsStat) (offset count position : ℕ) (bytes : List ℕ)
      → IsWord count
      → code stat ≢ 0
      → vsnfsd_proc_read s vfs e env.file_path env.position table (record {
        fh = fh;
        offset = offset % 2 ^ 32;
        count = min count page_size;
        buffer = env.rqstp.resused;
      })
        ≡ done (vsnfserr e stat, bytes, position)
      → serve x s vfs e env table read (
          vsnfs_xdr_readargs x blank rslack
            (record { fh = fh; offset = offset % 2 ^ 32; length = count }))
        ≡ done (reply (be32 (code stat) ++ env.more) (fault_page count), table)
  unfolding serve serve_by vsnfsd_dispatch
  serve-read-fault stat offset count position bytes word wrong ran =
      rw
        (
          readargs_roundtrip x env.rqstp rslack fh (offset % 2 ^ 32) count env.stale ok
              (omega arith) word,
          ran,
          ==_of_ne (vsnfserr e stat) 0 (vsnfserr-ne-zero e stat wrong),
          empty,
          store32-vsnfserr e stat,
          vsnfs_xdr_readargs-rcv_pages x blank rslack
              (record { fh = fh; offset = offset % 2 ^ 32; length = count }),
          split-be32 x s vfs e env ((x.rephdrsize + rslack) * 4) (code stat) count
              (take env.rqstp.page_len (env.rqstp.page ++ env.more)),
        )
        refl

  serve-readdir-fault :
      (stat : VsnfsStat) (res : ReaddirRes)
      → code stat ≢ 0
      → vsnfsd_proc_readdir s vfs e x env.stack env.file_path table
          (record { fh = fh; count = page_size; buffer = env.rqstp.resused })
        ≡ done (vsnfserr e stat, res)
      → serve x s vfs e env table readdir
          (vsnfs_xdr_readdirargs x blank rslack (record { fh = fh; count = page_size }))
        ≡ done (reply (be32 (code stat) ++ env.more) (env.rqstp.page ++ env.more), table)
  unfolding serve serve_by vsnfsd_dispatch
  serve-readdir-fault stat res wrong ran =
      rw
        (
          readdirargs_roundtrip x env.rqstp rslack fh page_size env.stale ok (omega arith),
          ran,
          ==_of_ne (vsnfserr e stat) 0 (vsnfserr-ne-zero e stat wrong),
          empty,
          store32-vsnfserr e stat,
        )
        refl

  proc_read_fault :
      (offset count : ℕ) (z : ℤ)
      → Fault s vfs e env table fh
          (λ file. (vfs.vfs_read file (min count page_size) env.position).0)
          z
      → (stat : VsnfsStat) × IsFault stat z
        × (bytes : List ℕ) × (position : ℕ) × (vsnfsd_proc_read s vfs e env.file_path env.position
              table
              (record {
                fh = fh;
                offset = offset;
                count = min count page_size;
                buffer = env.rqstp.resused;
              })
            ≡ done (vsnfserr e stat, bytes, position))
  unfolding vsnfsd_proc_read read_file
  proc_read_fault offset count z fault =
      let (stat, is, outcome) = Fault-status s vfs e env table fh _ z fault in
      elim outcome [
        | inl closed ↦ (stat, is, [], env.position, rw closed refl)
        | inr (file, m, opened, failed, same) ↦
            let got = vfs.vfs_read file (min count page_size) env.position in
            (stat, is, got.1, got.2, rw (opened, read_file, failed, same) refl)
      ]

  -- What `vsnfsd_proc_readdir` leaves in `resp` behind a status that is an error.
  abbrev left_by : (status : ℕ) → ReaddirRes → ReaddirRes
  left_by status res = record res {
    err = if status == 0 || not (res.err == vsnfserr e VsnfsStat.ok) then res.err else status;
    count = length res.buffer / 4;
  }

  proc_readdir_fault :
      (z : ℤ)
      → Fault s vfs e env table fh
          (λ file. (vfs.vfs_readdir file (filler x e env.stack) (start_res s vfs e page_size)).0)
          z
      → (stat : VsnfsStat) × IsFault stat z
        × (res : ReaddirRes) × (vsnfsd_proc_readdir s vfs e x env.stack env.file_path table
              (record { fh = fh; count = page_size; buffer = env.rqstp.resused })
            ≡ done (vsnfserr e stat, res))
  unfolding vsnfsd_proc_readdir readdir_file
  proc_readdir_fault z fault =
      let start = start_res s vfs e page_size in
      let (stat, is, outcome) = Fault-status s vfs e env table fh _ z fault in
      elim outcome [
        | inl closed ↦ (stat, is, left_by (vsnfserr e stat) start, rw closed refl)
        | inr (file, m, opened, failed, same) ↦
            let res = (vfs.vfs_readdir file (filler x e env.stack) start).1 in
            (stat, is, left_by (vsnfserr e stat) res, rw (opened, readdir_file, failed, same) refl)
      ]

  -- A client's READ by a well-formed handle that fails on the server: the client gets -ENOSPC if
  -- there is no memory for the path, -ENOENT if the table does not have the handle, -EIO if the
  -- path cannot be opened, and of an errno of `vfs_read` the errno itself if it crosses and else
  -- -EIO; the server's table stays as it is.
  pub vsnfs_proc_read-fault :
      (base : ℕ) (old : List ℕ) (offset count held : ℕ) (z : ℤ)
      → IsWord count
      → Fault s vfs e env table fh
          (λ file. (vfs.vfs_read file (min count page_size) env.position).0)
          z
      → (page : List ℕ) × (vsnfs_proc_read x
            (serve x s vfs e env)
            table
            rslack
            base
            fh
            old
            offset
            count
            held
          ≡ done ((z, page, held), table))
  unfolding vsnfs_proc_read
  vsnfs_proc_read-fault base old offset count held z word fault =
      let (stat, is, bytes, position, ran) = proc_read_fault (offset % 2 ^ 32) count z fault in
      (
        fault_page count,
        rw
            (
              serve-read-fault stat offset count position bytes word is.0 ran,
              readres_fault x _ base stat z env.more held is,
            )
            refl,
      )

  -- A client's `readdir` by a well-formed handle that fails on the server: as the errno of the call
  -- and of the `readdir` the client gets -ENOSPC if there is no memory for the path, -ENOENT if the
  -- table does not have the handle, -EIO if the path cannot be opened, and of an errno of
  -- `vfs_readdir` the errno itself if it crosses and else -EIO; `filldir` gets no entry, and the
  -- server's table stays as it is.
  pub vsnfs_readdir-fault :
      {User : Type 0} (filldir : User → Filldir → ℤ × User) (old : List ℕ) (user : User)
      (entry : VsnfsEntry) (z : ℤ)
      → Fault s vfs e env table fh
          (λ file. (vfs.vfs_readdir file (filler x e env.stack) (start_res s vfs e page_size)).0)
          z
      → (page : List ℕ) × (left : Left User) × (vsnfs_proc_readdir x
            (serve x s vfs e env)
            table
            rslack
            fh
            old
            page_size
          ≡ done ((z, page), table))
        × (vsnfs_readdir x filldir true (z, page) 0 user entry ≡ done left)
        × (left.res ≡ z)
        × (left.user ≡ user)
  unfolding vsnfs_proc_readdir vsnfs_readdir
  vsnfs_readdir-fault filldir old user entry z fault =
      let (stat, is, res, ran) = proc_readdir_fault z fault in
      (
        env.rqstp.page ++ env.more,
        record {
          res = z;
          user = user;
          desc = record {
            ptr = none;
            page = false;
            page_index = 0;
            target = 0;
            entry = record entry { eof = 0 };
          };
          f_pos = 0;
        },
        rw (serve-readdir-fault stat res is.0 ran, readdirres_fault stat z env.more is) refl,
        rw (is.1, is.1) refl,
        refl,
        refl,
      )
