-- ===== src/Super/Walk.antt =====
-- A mount and a lookup behind it, through the RPC layer: `vsnfs_get_sb` (vsnfsClient.c), then
-- `vsnfs_lookup` (vsnfsDir.c) in the root that it leaves, with the server's table passed on.
use vsnfs.Base.{
  ℕ, ◌+◌, ◌^◌, ◌<◌, ◌≤◌, ◌≡◌, ◌≢◌, refl, List, [], ◌∷◌, ◌++◌, Option, some, true, false, ==_refl,
  is_neg, pos, Endian, done, length, length-append, arith, store32,
}
use vsnfs.Protocol.{VsnfsFh, maxnamlen, maxpathlen, dir}
use vsnfs.Kernel.{Sunrpc, Strtoul}
use vsnfs.Handle.Decimal.{strtoul-handle_of}
use vsnfs.Vfs.{Vfs, Inode, directory, other}
use vsnfs.ServerXdr.{ReaddirRes, has_nul, has_nul_or_slash}
use vsnfs.Server.{Node, Table, find_node, fh_memory, ends_in_slash}
use vsnfs.Server.Lookup.{room, fh_for}
use vsnfs.Server.Texts.{has_nul-has_nul_or_slash}
use vsnfs.Server.Resolve.{plenty, slashed, has_nul-slashed, lookup_run, getroot_run}
use vsnfs.Rpc.{vsnfs_proc_getroot, vsnfs_proc_lookup}
use vsnfs.Rpc.Serve.{Surroundings, serve}
use vsnfs.Client.{ClientInode, dentry, vsnfs_lookup}
use vsnfs.Client.Lookup.{mirror, fh_for-IsFh, vsnfs_lookup-rpc}
use vsnfs.Mount.{VsnfsServer}
use vsnfs.Mount.Parse.{has_colon}
use vsnfs.Super.{MountEnv, mounted, vsnfs_get_sb}
use vsnfs.Super.Mounted.{active_super, vsnfs_get_sb-rpc}

length-slashed : (path : List ℕ) → length (slashed directory path) ≤ length path + 1
length-slashed path = ground (arith, length-append path (b'/' ∷ []))

slashed-ne-nil : (path : List ℕ) → path ≢ [] → slashed directory path ≢ []
unfolding ends_in_slash
slashed-ne-nil [] ne = absurd (ne refl)
slashed-ne-nil (c ∷ cs) ne = ground arith

-- A table with one node, asked by that node's handle.
find_root :
    (s : Strtoul) (e : Endian) (resp : VsnfsFh) (ino : ℕ) (path : List ℕ)
    → ino < 10 ^ 7
    → find_node
        (s.simple_strtoul (fh_memory e (fh_for resp (record { i_ino = ino; kind = directory }))))
        (record { ino = ino; path = path } ∷ [])
      ≡ some (record { ino = ino; path = path })
unfolding find_node
find_root s e resp ino path small =
    rw ((strtoul-handle_of s resp.handle (store32 e dir) ino (omega arith)).1 small, ==_refl ino)
      refl

module _ {File : Type 0} (x : Sunrpc) (s : Strtoul) (vfs : Vfs File ReaddirRes) (e : Endian)
    (around : Surroundings) (empty : around.rqstp.head ≡ []) (eight : length around.resp.handle ≡ 8)
    (memory : around.alloc ≡ plenty) (table : Table) (env : MountEnv) (blank : VsnfsServer)
    (options : List (List ℕ)) where
  -- A mount of a path under which `path_lookup` finds a directory, where nothing is refused.
  pub vsnfs_get_sb-path :
      (addr path : List ℕ) (ino : ℕ) (old : ClientInode)
      → (env.kzalloc ≡ true)
        × (env.kstrndup ≡ true)
        × (env.kmalloc ≡ true)
        × (env.d_alloc_root ≡ true)
      → (is_neg (env.in4_pton addr) ≡ false)
        × (is_neg env.rpc_create ≡ false)
        × (is_neg env.sget ≡ false)
        × (is_neg env.d_obtain_alias ≡ false)
      → has_colon addr ≡ false
      → length addr ≤ 15
      → has_nul path ≡ false
      → path ≢ []
      → length path ≤ maxpathlen
      → vfs.path_lookup (slashed directory path)
        ≡ (pos 0, some (record { i_ino = ino; kind = directory }))
      → ino < 10 ^ 7
      → (env.iget ino ≡ some old) × (old.is_new ≡ true)
      → (server : VsnfsServer) × (vsnfs_get_sb s e env
            (vsnfs_proc_getroot x (serve x s vfs e around))
            table
            blank
            (addr ++ b':' ∷ path)
            options
          ≡ done (
            mounted (active_super server) (
                mirror
                  (fh_for around.resp (record { i_ino = ino; kind = directory }))
                  (record { i_ino = ino; kind = directory })
                  old),
            some (record { ino = ino; path = slashed directory path } ∷ []),
          ))
  vsnfs_get_sb-path addr path ino old willing fine plain short clean ne fits at_root small
        (cached, new) =
      let root_inode : Inode = record { i_ino = ino; kind = directory } in
      let (server, _, _, _, mount) =
        vsnfs_get_sb-rpc x s vfs e around empty eight table env blank options addr path root_inode
          old
          (record {
            table = some (record { ino = ino; path = slashed directory path } ∷ []);
            status = 0;
            resp = fh_for around.resp root_inode;
          })
          willing fine plain short fits clean
          (rw memory (
            getroot_run s e vfs table (record { path = path; len = length path }) around.resp ino
              clean ne refl at_root))
          refl refl small (λ h. cc) cached new in
      (server, mount)

module _ {File Dentry : Type 0} (x : Sunrpc) (s : Strtoul) (vfs : Vfs File ReaddirRes) (e : Endian)
    (around : Surroundings) (empty : around.rqstp.head ≡ []) (eight : length around.resp.handle ≡ 8)
    (memory : around.alloc ≡ plenty) (table : Table) (env : MountEnv) (blank : VsnfsServer)
    (options : List (List ℕ)) (iget : ℕ → Option ClientInode)
    (d_materialise_unique : Option ClientInode → Dentry) where
  -- A mount of a device name "address:path" through the RPC layer, where neither the kernel nor the
  -- server's memory refuses anything, and then a lookup of a name in the mounted root, where the
  -- address has at most 15 bytes and no colon, the path is not empty and has no NUL, the name has at
  -- most VSNFS_MAXNAMLEN bytes without NUL and slash, and the server's buffer has room for both: if
  -- the server's `path_lookup` finds a directory under the path with a slash at its end, and a file
  -- or directory under that path with the name behind it, both with numbers of at most seven digits,
  -- and the client's cache gives a new inode for each, then the mount's root has the number of the
  -- first, and the lookup's dentry gets an inode of the number and kind of the second.
  pub vsnfs_lookup-vsnfs_get_sb :
      (addr path name : List ℕ) (ino : ℕ) (inode : Inode) (old_root old : ClientInode)
      (newfh : VsnfsFh)
      → (env.kzalloc ≡ true)
        × (env.kstrndup ≡ true)
        × (env.kmalloc ≡ true)
        × (env.d_alloc_root ≡ true)
      → (is_neg (env.in4_pton addr) ≡ false)
        × (is_neg env.rpc_create ≡ false)
        × (is_neg env.sget ≡ false)
        × (is_neg env.d_obtain_alias ≡ false)
      → has_colon addr ≡ false
      → length addr ≤ 15
      → has_nul path ≡ false
      → path ≢ []
      → has_nul_or_slash name ≡ false
      → length name ≤ maxnamlen
      → length path + length name + 3 ≤ room
      → vfs.path_lookup (slashed directory path)
        ≡ (pos 0, some (record { i_ino = ino; kind = directory }))
      → vfs.path_lookup (slashed directory path ++ name) ≡ (pos 0, some inode)
      → ino < 10 ^ 7
      → inode.i_ino < 10 ^ 7
      → inode.kind ≢ other
      → (env.iget ino ≡ some old_root) × (old_root.is_new ≡ true)
      → (iget inode.i_ino ≡ some old) × (old.is_new ≡ true)
      → (server : VsnfsServer) × (root : ClientInode) × (found : Table) × (left : Table)
        × (vsnfs_get_sb s e env
              (vsnfs_proc_getroot x (serve x s vfs e around))
              table
              blank
              (addr ++ b':' ∷ path)
              options
            ≡ done (mounted (active_super server) root, found))
        × (root.i_ino ≡ ino)
        × (vsnfs_lookup s e iget d_materialise_unique
              (vsnfs_proc_lookup x (serve x s vfs e around))
              found
              true
              root.i_private
              name
              newfh
            ≡ done (
              dentry (d_materialise_unique (some (mirror (fh_for around.resp inode) inode old))),
              left,
            ))
  vsnfs_lookup-vsnfs_get_sb addr path name ino inode old_root old newfh willing fine plain short
        clean ne named fits sized at_root at_name small small' kind (cached, new) (cached', new') =
      let root_inode : Inode = record { i_ino = ino; kind = directory } in
      let root_path = slashed directory path in
      let root_node : Node = record { ino = ino; path = root_path } in
      let (server, mount) =
        vsnfs_get_sb-path x s vfs e around empty eight memory table env blank options addr path ino
          old_root willing fine plain short clean ne (omega (arith, sized)) at_root small
          (cached, new) in
      let (ns', n, ran, _, _) =
        lookup_run s e vfs (root_node ∷ [])
          (record { fh = fh_for around.resp root_inode; filename = name; len = length name })
          around.resp root_node inode (find_root s e around.resp ino root_path small)
          (has_nul-slashed path clean) (has_nul-has_nul_or_slash name named)
          (slashed-ne-nil path ne) refl (omega (arith, length-slashed path, sized)) at_name in
      (
        server,
        mirror (fh_for around.resp root_inode) root_inode old_root,
        some (root_node ∷ []),
        some ns',
        mount,
        refl,
        vsnfs_lookup-rpc x s vfs e around empty eight (some (root_node ∷ [])) iget
            d_materialise_unique (fh_for around.resp root_inode) newfh name inode old
            (record { table = some ns'; status = 0; resp = fh_for around.resp inode })
            (fh_for-IsFh around.resp root_inode eight (λ h. cc)) fits named (rw memory ran) refl
            refl small' kind cached' new',
      )
