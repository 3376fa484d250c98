-- ===== src/Rpc/Refused.antt =====
-- A lookup that the server's decoder refuses, through the RPC layer: `vsnfs_lookup` (vsnfsDir.c) over
-- `vsnfs_proc_lookup` (vsnfsProc.c), with the dispatch of server/vsnfssvc.c behind it.
use vsnfs.Base.{
  ℕ, ◌≤◌, ◌≡◌, refl, List, Option, some, true, pos, ltb_of_le, eqb, false, neg, Endian, done,
  length, arith,
}
use vsnfs.Protocol.{VsnfsFh, VsnfsStat, code, IsFh, maxnamlen}
use vsnfs.Kernel.{Sunrpc, Strtoul}
use vsnfs.Vfs.{Vfs}
use vsnfs.ServerXdr.{ReaddirRes, has_nul_or_slash}
use vsnfs.Server.{Table}
use vsnfs.Wire.Args.{lookupargs_roundtrip}
use vsnfs.Svc.{vsnfsd_dispatch}
use vsnfs.Rpc.{vsnfs_proc_lookup}
use vsnfs.Rpc.Serve.{Surroundings, serve, serve_by}
use vsnfs.Client.{ClientInode, err_dentry, vsnfs_lookup}
use vsnfs.Client.Lookup.{vsnfs_lookup_lem}

module _ {File Dentry : Type 0} (x : Sunrpc) (s : Strtoul) (vfs : Vfs File ReaddirRes) (e : Endian)
    (env : Surroundings) (table : Table) (iget : ℕ → Option ClientInode)
    (d_materialise_unique : Option ClientInode → Dentry) (parent newfh : VsnfsFh) (ok : IsFh parent)
    (name : List ℕ) (short : length name ≤ maxnamlen) (bad : has_nul_or_slash name ≡ true) where
  vsnfs_proc_lookup-garbage :
      vsnfs_proc_lookup x
        (serve x s vfs e env)
        table
        (record { fh = parent; filename = name; len = length name })
        newfh
      ≡ done ((env.garbage, newfh), table)
  unfolding vsnfs_proc_lookup serve serve_by vsnfsd_dispatch
  vsnfs_proc_lookup-garbage =
      rw
        (
          lookupargs_roundtrip x env.rqstp parent name env.stale ok (omega (arith, short)),
          ltb_of_le maxnamlen (length name) short,
          bad,
        )
        refl

  -- A lookup of a name of at most VSNFS_MAXNAMLEN bytes with a NUL or a slash in it, by a
  -- well-formed handle, where the RPC layer does not take a refused request for a success: no
  -- procedure runs, the server's table stays as it is, and the client gets -VSNFSERR_REMOTE and
  -- makes no dentry.
  pub vsnfs_lookup-garbage :
      eqb env.garbage (pos 0) ≡ false
      → vsnfs_lookup s e iget d_materialise_unique
          (vsnfs_proc_lookup x (serve x s vfs e env))
          table
          true
          (some parent)
          name
          newfh
        ≡ done (err_dentry (neg (code VsnfsStat.remote)), table)
  vsnfs_lookup-garbage failed =
      rw
        (
          vsnfs_lookup_lem s e iget d_materialise_unique (vsnfs_proc_lookup x (serve x s vfs e env))
              table table parent name newfh newfh env.garbage vsnfs_proc_lookup-garbage,
          ltb_of_le maxnamlen (length name) short,
          failed,
        )
        refl
