-- ===== src/Svc/Calls.antt =====
-- A whole call: the client's encoder (vsnfsXdr.c), the server's dispatch with its decoder, procedure
-- and encoder (server/vsnfssvc.c, server/vsnfsproc.c, server/vsnfsxdr.c), and the client's decoder.
use vsnfs.Base.{
  ℕ, ◌≤◌, ◌≡◌, List, [], ◌++◌, false, Option, some, ◌==◌, ltb_of_le, if◌then◌else◌, ℤ, pos, Endian,
  cpu_to_be32, Run, done, ◌>>=◌, length, IsWord, arith,
}
use vsnfs.Protocol.{VsnfsFh, IsFh, maxnamlen, maxpathlen}
use vsnfs.Kernel.{Sunrpc, Strtoul}
use vsnfs.Errno.{vsnfs_stat_to_errno, int_of_word}
use vsnfs.Vfs.{Vfs}
use vsnfs.ClientXdr.{vsnfs_xdr_lookupargs, vsnfs_xdr_getrootargs, vsnfs_xdr_fh}
use vsnfs.ServerXdr.{
  SvcRqst, has_nul, has_nul_or_slash, LookupArgs, GetrootArgs, vsnfssvc_decode_lookupargs,
  vsnfssvc_decode_getrootargs,
}
use vsnfs.Server.{Table, Kmalloc, Reply}
use vsnfs.Server.Lookup.{vsnfsd_proc_lookup}
use vsnfs.Server.Getroot.{vsnfsd_proc_getroot}
use vsnfs.Wire.Args.{blank, received, lookupargs_roundtrip, getrootargs_roundtrip}
use vsnfs.Svc.{untouched, Dispatched, vsnfsd_dispatch}
use vsnfs.Svc.Procedures.{lookup_procedure, getroot_procedure, leaving, parts}
use vsnfs.Svc.Dispatch.{dispatch_call-fh, fh_procedure}

-- What the client makes of a status and a handle: the handle, or the status' errno and its own
-- handle as it was.
abbrev pub client_result : Endian → ℕ → VsnfsFh → VsnfsFh → Run (ℤ × VsnfsFh)
client_result e w sent fh =
    if w == 0
    then done (pos 0, sent)
    else (do errno ← vsnfs_stat_to_errno (int_of_word (cpu_to_be32 e w)); done (errno, fh))

-- A call whose reply is a file handle, from what its decoder and its procedure give.
fh_call :
    {Args : Type 0} (x : Sunrpc) (e : Endian) (decode : SvcRqst → List ℕ → Run (Option Args))
    (func : Table → Args → VsnfsFh → Run Reply) (rqstp : SvcRqst) (base : List ℕ) (table : Table)
    (resp : VsnfsFh) (args : Args) (r : Reply) (more : List ℕ) (fh : VsnfsFh)
    → rqstp.head ≡ []
    → decode rqstp base ≡ done (some args)
    → func table args resp ≡ done r
    → IsWord r.status
    → IsFh r.resp
    → (d : Dispatched Table) × (vsnfsd_dispatch e
          (fh_procedure x e (leaving decode) (λ t a p. parts (func t a p)))
          rqstp
          base
          table
          resp
        ≡ done d)
      × (d.statp ≡ untouched)
      × (d.state ≡ r.table)
      × (vsnfs_xdr_fh (d.rqstp.head ++ more) fh ≡ client_result e r.status r.resp fh)
unfolding vsnfsd_dispatch
fh_call x e decode func rqstp base table resp args r more fh blank_reply decoded ran word ok =
    let (d, called, statp, state, read) =
      dispatch_call-fh x e (leaving decode) (λ t a p. parts (func t a p)) rqstp table r.table args
        resp r.resp fh r.status more blank_reply (rw ran) word ok in
    (d, rw decoded called, statp, state, read)

module _ {File State : Type 0} (x : Sunrpc) (s : Strtoul) (vfs : Vfs File State) (e : Endian)
    (k : Kmalloc) (rqstp : SvcRqst) (blank_reply : rqstp.head ≡ []) (table : Table) (resp : VsnfsFh)
    (r : Reply) (word : IsWord r.status) (ok : IsFh r.resp) (stale more : List ℕ)
    (fh : VsnfsFh) where
  -- The client's LOOKUP of a name of at most VSNFS_MAXNAMLEN bytes without NUL and slash, by a
  -- well-formed handle: if the procedure returns on the client's own arguments, then the dispatch
  -- does, without an error of the RPC layer, the procedure's table becomes the server's, and the
  -- client gets the reply's handle behind a status of 0, and else the errno of the status with
  -- its own handle left alone.
  pub lookup_call :
      (dir : VsnfsFh) (name : List ℕ)
      → IsFh dir
      → length name ≤ maxnamlen
      → has_nul_or_slash name ≡ false
      → vsnfsd_proc_lookup s vfs e k table
          (record { fh = dir; filename = name; len = length name })
          resp
        ≡ done r
      → let sent =
          vsnfs_xdr_lookupargs x blank (record { fh = dir; filename = name; len = length name }) in
        (d : Dispatched Table) × (vsnfsd_dispatch e
            (lookup_procedure x s vfs e k)
            (received rqstp sent)
            (sent.svec ++ stale)
            table
            resp
          ≡ done d)
        × (d.statp ≡ untouched)
        × (d.state ≡ r.table)
        × (vsnfs_xdr_fh (d.rqstp.head ++ more) fh ≡ client_result e r.status r.resp fh)
  lookup_call dir name hd short plain ran =
      let args : LookupArgs = record { fh = dir; filename = name; len = length name } in
      let sent =
        vsnfs_xdr_lookupargs x blank (record { fh = dir; filename = name; len = length name }) in
      let decoded = lookupargs_roundtrip x rqstp dir name stale hd (omega (arith, short)) in
      fh_call x e (vsnfssvc_decode_lookupargs x) (vsnfsd_proc_lookup s vfs e k)
        (received rqstp sent) (sent.svec ++ stale) table resp args r more fh blank_reply
        (rw (plain, ltb_of_le maxnamlen (length name) short) at decoded) ran word ok

  -- The client's GETROOT of a path of at most VSNFS_MAXPATHLEN bytes without NUL: if the
  -- procedure returns on the client's own arguments, then the dispatch does, without an error of
  -- the RPC layer, the procedure's table becomes the server's, and the client gets the reply's
  -- handle behind a status of 0, and else the errno of the status with its own handle left alone.
  pub getroot_call :
      (path : List ℕ)
      → length path ≤ maxpathlen
      → has_nul path ≡ false
      → vsnfsd_proc_getroot vfs e k table (record { path = path; len = length path }) resp ≡ done r
      → let sent = vsnfs_xdr_getrootargs x blank (record { path = path; len = length path }) in
        (d : Dispatched Table) × (vsnfsd_dispatch e
            (getroot_procedure x s vfs e k)
            (received rqstp sent)
            (sent.svec ++ stale)
            table
            resp
          ≡ done d)
        × (d.statp ≡ untouched)
        × (d.state ≡ r.table)
        × (vsnfs_xdr_fh (d.rqstp.head ++ more) fh ≡ client_result e r.status r.resp fh)
  getroot_call path short plain ran =
      let args : GetrootArgs = record { path = path; len = length path } in
      let sent = vsnfs_xdr_getrootargs x blank (record { path = path; len = length path }) in
      let decoded = getrootargs_roundtrip x rqstp path stale (omega (arith, short)) in
      fh_call x e (vsnfssvc_decode_getrootargs x) (vsnfsd_proc_getroot vfs e k)
        (received rqstp sent) (sent.svec ++ stale) table resp args r more fh blank_reply
        (rw (plain, ltb_of_le maxpathlen (length path) short) at decoded) ran word ok
