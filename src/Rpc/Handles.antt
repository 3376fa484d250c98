-- ===== src/Rpc/Handles.antt =====
-- The calls that answer with a file handle, through the RPC layer: `vsnfs_proc_lookup` and
-- `vsnfs_proc_getroot` (vsnfsProc.c) with the server's dispatch and procedures behind them.
use vsnfs.Base.{ℕ, ◌≤◌, ◌≡◌, refl, List, [], false, ℤ, Endian, Run, done, ◌>>=◌, length, IsWord}
use vsnfs.Protocol.{VsnfsFh, IsFh, maxnamlen, maxpathlen}
use vsnfs.Kernel.{Sunrpc, Strtoul}
use vsnfs.Vfs.{Vfs}
use vsnfs.ServerXdr.{ReaddirRes, has_nul, has_nul_or_slash}
use vsnfs.Server.{Table, Reply}
use vsnfs.Server.Lookup.{vsnfsd_proc_lookup}
use vsnfs.Server.Getroot.{vsnfsd_proc_getroot}
use vsnfs.Svc.Calls.{client_result, lookup_call, getroot_call}
use vsnfs.Rpc.{vsnfs_proc_lookup, vsnfs_proc_getroot}
use vsnfs.Rpc.Serve.{Surroundings, serve, serve_by}

-- What the client makes of the server's reply, and the server's table behind it.
abbrev pub client_reply : Endian → Reply → VsnfsFh → Run ((ℤ × VsnfsFh) × Table)
client_reply e r fh = do result ← client_result e r.status r.resp fh; done (result, r.table)

module _ {File : Type 0} (x : Sunrpc) (s : Strtoul) (vfs : Vfs File ReaddirRes) (e : Endian)
    (env : Surroundings) (empty : env.rqstp.head ≡ []) (table : Table) (r : Reply)
    (word : IsWord r.status) (ok : IsFh r.resp) (fh : VsnfsFh) where
  pub vsnfs_proc_lookup-serve :
      (dir : VsnfsFh) (name : List ℕ)
      → IsFh dir
      → length name ≤ maxnamlen
      → has_nul_or_slash name ≡ false
      → vsnfsd_proc_lookup s vfs e env.alloc table
          (record { fh = dir; filename = name; len = length name })
          env.resp
        ≡ done r
      → vsnfs_proc_lookup x
          (serve x s vfs e env)
          table
          (record { fh = dir; filename = name; len = length name })
          fh
        ≡ client_reply e r fh
  unfolding vsnfs_proc_lookup serve serve_by
  vsnfs_proc_lookup-serve dir name hd short plain ran =
      let (d, called, statp, state, read) =
        lookup_call x s vfs e env.alloc env.rqstp empty table env.resp r word ok env.stale env.more
          fh dir name hd short plain ran in
      rw (called, statp, read, state) refl

  pub vsnfs_proc_getroot-serve :
      (path : List ℕ)
      → length path ≤ maxpathlen
      → has_nul path ≡ false
      → vsnfsd_proc_getroot vfs e env.alloc table
          (record { path = path; len = length path })
          env.resp
        ≡ done r
      → vsnfs_proc_getroot x
          (serve x s vfs e env)
          table
          (record { path = path; len = length path })
          fh
        ≡ client_reply e r fh
  unfolding vsnfs_proc_getroot serve serve_by
  vsnfs_proc_getroot-serve path short plain ran =
      let (d, called, statp, state, read) =
        getroot_call x s vfs e env.alloc env.rqstp empty table env.resp r word ok env.stale env.more
          fh path short plain ran in
      rw (called, statp, read, state) refl
