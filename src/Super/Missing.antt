-- ===== src/Super/Missing.antt =====
-- What a name that does not exist does: `vsnfs_lookup` (vsnfsDir.c) with the server's procedure
-- (server/vsnfsproc.c) behind the RPC layer.
use vsnfs.Base.{
  ℕ, ◌+◌, ◌^◌, ◌<◌, ◌≤◌, ◌≡◌, ◌≢◌, refl, ap, ◌∙◌, List, ◌++◌, Option, none, some, true, false,
  ltb_of_le, take_all, Endian, store32, oops, ◌∷◌, [], Fault, null_pointer, length, arith,
}
use vsnfs.Protocol.{VsnfsFh, IsFh, maxnamlen}
use vsnfs.Kernel.{Sunrpc, Strtoul}
use vsnfs.Handle.Decimal.{strtoul-handle_of}
use vsnfs.Vfs.{Vfs, Inode, other}
use vsnfs.ServerXdr.{ReaddirRes, LookupArgs, has_nul, has_nul_or_slash}
use vsnfs.Server.{Node, Table, fh_memory}
use vsnfs.Server.Lookup.{room, fh_for, vsnfsd_proc_lookup}
use vsnfs.Server.Open.{known_node}
use vsnfs.Server.Resolve.{plenty}
use vsnfs.Server.Spec.{View, nodes_view}
use vsnfs.Server.Texts.{until_nul_all, has_nul-append, has_nul-has_nul_or_slash}
use vsnfs.Wire.Args.{lookupargs_roundtrip}
use vsnfs.Svc.{vsnfsd_dispatch}
use vsnfs.Rpc.{vsnfs_proc_lookup}
use vsnfs.Rpc.Serve.{Surroundings, serve, serve_by}
use vsnfs.Client.{ClientInode, vsnfs_lookup}
use vsnfs.Super.Path.{path_walk, look, image, look_below}
use vsnfs.Rpc.Walk.{Chain}
use vsnfs.Client.Lookup.{fh_for-IsFh, mirror-i_private}

-- A lookup of a name that does not exist uses a null dentry.
proc_lookup_missing :
    {File : Type 0} (s : Strtoul) (vfs : Vfs File ReaddirRes) (e : Endian) (ns : List Node)
    (args : LookupArgs) (resp : VsnfsFh) (dir : ℕ) (path : List ℕ)
    → s.simple_strtoul (fh_memory e args.fh) ≡ dir
    → nodes_view ns dir ≡ some path
    → has_nul path ≡ false
    → has_nul args.filename ≡ false
    → args.len ≡ length args.filename
    → length path + length args.filename + 1 ≤ room
    → (vfs.path_lookup (path ++ args.filename)).1 ≡ none
    → vsnfsd_proc_lookup s vfs e plenty (some ns) args resp ≡ oops null_pointer
unfolding vsnfsd_proc_lookup
proc_lookup_missing s vfs e ns args resp dir path number known clean named l fits gone =
    let (n, here, is) = known_node ns dir path known in
    let whole : n.path ++ args.filename ≡ path ++ args.filename =
      ap (λ (t : List ℕ). t ++ args.filename) is in
    let text : has_nul (n.path ++ args.filename) ≡ false =
      rw whole (has_nul-append path args.filename clean named) in
    let none_here : (vfs.path_lookup (n.path ++ args.filename)).1 ≡ none = rw whole gone in
    let long : length n.path ≡ length path = ap length is in
    rw (number, here)
      (ground (
        arith,
        take_all args.len args.filename (omega arith),
        until_nul_all (n.path ++ args.filename) text,
        none_here,
        long,
      ))

module _ {File : Type 0} (x : Sunrpc) (s : Strtoul) (vfs : Vfs File ReaddirRes) (e : Endian)
    (env : Surroundings) (table : Table) (newfh : VsnfsFh) (fault : Fault) where
  -- A fault of the procedure is one of the call.
  proc_lookup_fault :
      (dir : VsnfsFh) (name : List ℕ)
      → IsFh dir
      → length name ≤ maxnamlen
      → has_nul_or_slash name ≡ false
      → vsnfsd_proc_lookup s vfs e env.alloc table
          (record { fh = dir; filename = name; len = length name })
          env.resp
        ≡ oops fault
      → vsnfs_proc_lookup x
          (serve x s vfs e env)
          table
          (record { fh = dir; filename = name; len = length name })
          newfh
        ≡ oops fault
  unfolding vsnfs_proc_lookup serve serve_by vsnfsd_dispatch
  proc_lookup_fault dir name ok short plain ran =
      rw
        (
          lookupargs_roundtrip x env.rqstp dir name env.stale ok (omega (arith, short)),
          plain,
          ltb_of_le maxnamlen (length name) short,
          ran,
        )
        refl

module _ {File Dentry : Type 0} (x : Sunrpc) (s : Strtoul) (vfs : Vfs File ReaddirRes) (e : Endian)
    (env : Surroundings) (eight : length env.resp.handle ≡ 8) (memory : env.alloc ≡ plenty)
    (iget : ℕ → Option ClientInode) (d_materialise_unique : Option ClientInode → Dentry) where
  -- A client's lookup of a name of at most VSNFS_MAXNAMLEN bytes without NUL and slash, through the
  -- RPC layer, in a directory or file whose handle the server made and whose path the table has,
  -- where the number has at most seven digits, the path has no NUL, both fit the server's buffer and
  -- the server's memory is there: if the server's `path_lookup` finds no inode for the name behind
  -- the path, the server uses a null pointer, whatever `path_lookup` returned.
  pub vsnfs_lookup-missing :
      (ns : List Node) (dir : Inode) (path name : List ℕ) (newfh : VsnfsFh)
      → dir.i_ino < 10 ^ 7
      → dir.kind ≢ other
      → nodes_view ns dir.i_ino ≡ some path
      → has_nul path ≡ false
      → length name ≤ maxnamlen
      → has_nul_or_slash name ≡ false
      → length path + length name + 1 ≤ room
      → (vfs.path_lookup (path ++ name)).1 ≡ none
      → vsnfs_lookup s e iget d_materialise_unique
          (vsnfs_proc_lookup x (serve x s vfs e env))
          (some ns)
          true
          (some (fh_for env.resp dir))
          name
          newfh
        ≡ oops null_pointer
  unfolding vsnfs_lookup
  vsnfs_lookup-missing ns dir path name newfh small kind known clean short plain fits gone =
      let fh = fh_for env.resp dir in
      let number =
        (strtoul-handle_of s env.resp.handle (store32 e fh.type) dir.i_ino (omega (arith, small))).1
          small in
      let ran =
        proc_lookup_missing s vfs e ns (record { fh = fh; filename = name; len = length name })
          env.resp dir.i_ino path number known clean (has_nul-has_nul_or_slash name plain) refl fits
          gone in
      rw
        (
          ltb_of_le maxnamlen (length name) short,
          proc_lookup_fault x s vfs e env (some ns) newfh null_pointer fh name
              (fh_for-IsFh env.resp dir eight kind) short plain (rw memory ran),
        )
        refl

module _ {File : Type 0} (x : Sunrpc) (s : Strtoul) (vfs : Vfs File ReaddirRes) (e : Endian)
    (env : Surroundings) (empty : env.rqstp.head ≡ []) (eight : length env.resp.handle ≡ 8)
    (memory : env.alloc ≡ plenty) (newfh : VsnfsFh) (iget : ℕ → Option ClientInode)
    (new : (ino : ℕ) → (old : ClientInode) × (iget ino ≡ some old) × (old.is_new ≡ true)) where
  -- A walk by `vsnfs_lookup` through the RPC layer, from the client's inode of a directory or file
  -- whose number has at most seven digits, where the server's memory is there and the client's cache
  -- gives new inodes: if the file system has the first names along the known paths (`Chain`), and
  -- then a name of at most VSNFS_MAXNAMLEN bytes without NUL and slash comes for which the server's
  -- `path_lookup` finds no inode behind the path that is known by then, which has no NUL and fits
  -- the server's buffer with the name, then the server uses a null pointer, whatever `path_lookup`
  -- returned and whatever names follow.
  pub path_walk-missing :
      (names : List (List ℕ)) (name : List ℕ) (more : List (List ℕ)) (ns : List Node)
      (dir last : Inode) (old : ClientInode) (v : View) (path : List ℕ)
      → dir.i_ino < 10 ^ 7
      → dir.kind ≢ other
      → Chain x s vfs e (nodes_view ns) dir names v last
      → v last.i_ino ≡ some path
      → has_nul path ≡ false
      → length name ≤ maxnamlen
      → has_nul_or_slash name ≡ false
      → length path + length name + 1 ≤ room
      → (vfs.path_lookup (path ++ name)).1 ≡ none
      → path_walk
          (look x s vfs e env iget)
          newfh
          (some ns)
          (image env dir old)
          (names ++ name ∷ more)
        ≡ oops null_pointer
  path_walk-missing [] name more ns dir last old v path small kind (same, there) known clean short
        plain fits gone =
      let here : nodes_view ns dir.i_ino ≡ some path =
        ap (nodes_view ns) (ap (λ (d : Inode). d.i_ino) there)
        ∙ (ap (λ (u : View). u last.i_ino) same ∙ known) in
      rw
        (
          mirror-i_private (fh_for env.resp dir) dir.i_ino dir.kind old,
          vsnfs_lookup-missing x s vfs e env eight memory iget (λ (made : Option ClientInode). made)
              ns dir path name newfh small kind here clean short plain fits gone,
        )
        refl
  path_walk-missing (first ∷ names) name more ns dir last old v path small kind
        (path1, inode, below, small', further) known clean short plain fits gone =
      let (ns1, old1, looked, learnt) =
        look_below x s vfs e env empty eight memory newfh iget new ns dir inode path1 first old
          small kind small' below in
      rw looked (
        path_walk-missing names name more ns1 inode last old1 v path small' below.kind
          (rw learnt further) known clean short plain fits gone)
