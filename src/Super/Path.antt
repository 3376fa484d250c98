-- ===== src/Super/Path.antt =====
-- The kernel's way along a path of the mounted file system: `vsnfs_lookup` (vsnfsDir.c) of each name
-- in the directory that the one before gave, through the RPC layer, with the server's table
-- (server/vsnfsproc.c) passed on.
use vsnfs.Base.{
  ℕ, ◌^◌, ◌<◌, ◌≡◌, ◌≢◌, refl, List, [], ◌∷◌, ◌++◌, Option, some, true, ltb_of_le, pos, Endian, Run,
  done, ◌>>=◌, length, ap,
}
use vsnfs.Protocol.{VsnfsFh, maxnamlen}
use vsnfs.Kernel.{Sunrpc, Strtoul}
use vsnfs.Vfs.{Vfs, Inode, other}
use vsnfs.ServerXdr.{ReaddirRes}
use vsnfs.Server.{Node, Table}
use vsnfs.Server.Lookup.{fh_for}
use vsnfs.Server.Resolve.{plenty, slashed}
use vsnfs.Server.Spec.{View, nodes_view, learn}
use vsnfs.Client.{ClientInode, Found, dentry, vsnfs_lookup}
use vsnfs.Client.Lookup.{mirror, mirror-i_private, vsnfs_lookup_lem, vsnfs_fhget-fh_for}
use vsnfs.Callbacks.Tables.{DirLookup}
use vsnfs.Rpc.{vsnfs_proc_lookup}
use vsnfs.Rpc.Serve.{Surroundings, serve}
use vsnfs.Rpc.Walk.{IsBelow, Chain, one_lookup}

-- The walk ends at the first name that gives no inode. `newfh` is what the memory for a handle holds
-- before.
abbrev pub path_walk :
    {State : Type 0}
    → DirLookup (Option ClientInode) State
    → (newfh : VsnfsFh) → State
    → (at : ClientInode) → (names : List (List ℕ)) → Run (Found (Option ClientInode) × State)
path_walk look newfh state at [] = done (dentry (some at), state)
path_walk look newfh state at (name ∷ names) = do
  (found, state') ← look state true at.i_private name newfh
  elim found [
    | dentry (some inode) ↦ path_walk look newfh state' inode names
    | missing ↦ done (missing, state')
  ]

-- `vsnfs_lookup` through the RPC layer, where a dentry is the inode that it was made of.
abbrev pub look :
    {File : Type 0}
    → Sunrpc
    → Strtoul
    → Vfs File ReaddirRes
    → Endian
    → Surroundings
    → (ℕ → Option ClientInode)
    → DirLookup (Option ClientInode) Table
look x s vfs e env iget =
    vsnfs_lookup s e iget (λ (made : Option ClientInode). made)
      (vsnfs_proc_lookup x (serve x s vfs e env))

-- The client's inode of an inode of the server's.
abbrev pub image : Surroundings → Inode → ClientInode → ClientInode
image env inode old = mirror (fh_for env.resp inode) inode old

module _ {File : Type 0} (x : Sunrpc) (s : Strtoul) (vfs : Vfs File ReaddirRes) (e : Endian)
    (env : Surroundings) (empty : env.rqstp.head ≡ []) (eight : length env.resp.handle ≡ 8)
    (memory : env.alloc ≡ plenty) (newfh : VsnfsFh) (iget : ℕ → Option ClientInode)
    (new : (ino : ℕ) → (old : ClientInode) × (iget ino ≡ some old) × (old.is_new ≡ true)) where
  pub look_below :
      (ns : List Node) (dir inode : Inode) (path name : List ℕ) (old : ClientInode)
      → dir.i_ino < 10 ^ 7
      → dir.kind ≢ other
      → inode.i_ino < 10 ^ 7
      → IsBelow x s vfs e (nodes_view ns) dir path name inode
      → (ns' : List Node) × (old' : ClientInode) × (look x s vfs e env iget
            (some ns)
            true
            (image env dir old).i_private
            name
            newfh
          ≡ done (dentry (some (image env inode old')), some ns'))
        × (nodes_view ns' ≡ learn (nodes_view ns) inode.i_ino (slashed inode.kind (path ++ name)))
  look_below ns dir inode path name old small kind small' below =
      let (ns', called, learnt) =
        one_lookup x s vfs e env empty eight memory newfh ns dir inode path name small kind below in
      let (old', cached, fresh) = new inode.i_ino in
      (
        ns',
        old',
        rw
            (
              mirror-i_private (fh_for env.resp dir) dir.i_ino dir.kind old,
              vsnfs_lookup_lem s e iget (λ (made : Option ClientInode). made)
                  (vsnfs_proc_lookup x (serve x s vfs e env)) (some ns) (some ns')
                  (fh_for env.resp dir) name newfh (fh_for env.resp inode) (pos 0) called,
              ltb_of_le maxnamlen (length name) below.short,
              vsnfs_fhget-fh_for s e iget env.resp inode old' small' below.kind cached fresh,
            )
            refl,
        learnt,
      )

  -- From the client's inode of a directory or file whose number has at most seven digits, where the
  -- server's memory is there, the client's cache gives new inodes, and the file system has the names
  -- along the paths that the table has or gets (`Chain`), all with numbers of at most seven digits:
  -- the walk by `vsnfs_lookup` ends with a client's inode of the last inode's number, kind and handle,
  -- and the table has exactly the paths that the walk on known paths ends with.
  pub path_walk-Chain :
      (names : List (List ℕ)) (ns : List Node) (dir last : Inode) (old : ClientInode) (v' : View)
      → dir.i_ino < 10 ^ 7
      → dir.kind ≢ other
      → Chain x s vfs e (nodes_view ns) dir names v' last
      → (ns' : List Node) × (old' : ClientInode) × (path_walk
            (look x s vfs e env iget)
            newfh
            (some ns)
            (image env dir old)
            names
          ≡ done (dentry (some (image env last old')), some ns'))
        × (nodes_view ns' ≡ v')
  path_walk-Chain [] ns dir last old v' small kind (same, there) =
      (ns, old, ap (λ (d : Inode). done (dentry (some (image env d old)), some ns)) there, same)
  path_walk-Chain (name ∷ names) ns dir last old v' small kind
        (path, inode, below, small', further) =
      let (ns1, old1, looked, learnt) =
        look_below ns dir inode path name old small kind small' below in
      let (ns2, old2, walked, is) =
        path_walk-Chain names ns1 inode last old1 v' small' below.kind (rw learnt further) in
      (ns2, old2, rw looked walked, is)
