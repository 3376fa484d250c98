-- ===== src/Super/Story.antt =====
-- A mount, a walk and a listing: `vsnfs_get_sb` (vsnfsClient.c), then `vsnfs_lookup` of one name after
-- the other, then `vsnfs_readdir` (vsnfsDir.c) of the directory that it arrives at, all through the
-- RPC layer, with the server's table passed on.
use vsnfs.Base.{
  ℕ, ◌^◌, ◌<◌, ◌≤◌, ◌≡◌, ◌≢◌, refl, ap, ◌∙◌, List, [], ◌∷◌, ◌++◌, some, true, false, if◌then◌else◌,
  ℤ, pos, neg, is_neg, Endian, done, length, All,
}
use vsnfs.Protocol.{VsnfsFh, maxpathlen}
use vsnfs.Kernel.{Sunrpc, Strtoul, page_size}
use vsnfs.Vfs.{Vfs, Inode, directory}
use vsnfs.Errno.Constants
use vsnfs.ClientXdr.{VsnfsEntry}
use vsnfs.ServerXdr.{ReaddirRes, has_nul}
use vsnfs.Server.{Node, Table}
use vsnfs.Server.Files.{filler, start_res, entry_words}
use vsnfs.Server.Lookup.{fh_for}
use vsnfs.Server.Open.{vsnfsd_open-known}
use vsnfs.Server.Resolve.{plenty, slashed}
use vsnfs.Server.Spec.{View, nodes_view}
use vsnfs.Dir.{Filldir, Left, vsnfs_readdir}
use vsnfs.Readdir.Encode.{total_words}
use vsnfs.Readdir.Loop.{IsSent, deliver}
use vsnfs.Readdir.EndToEnd.{has_entry}
use vsnfs.Client.{ClientInode, dentry}
use vsnfs.Client.Lookup.{fh_for-IsFh}
use vsnfs.Callbacks.Tables.{file_table, vsnfs_dir_operations}
use vsnfs.Rpc.{vsnfs_proc_getroot, vsnfs_proc_readdir}
use vsnfs.Rpc.Serve.{Surroundings, serve}
use vsnfs.Rpc.Readdir.{vsnfs_readdir-rpc}
use vsnfs.Rpc.Walk.{Chain}
use vsnfs.Mount.{VsnfsServer}
use vsnfs.Mount.Parse.{has_colon}
use vsnfs.Super.{MountEnv, mounted, vsnfs_get_sb}
use vsnfs.Super.Mounted.{active_super}
use vsnfs.Super.Walk.{vsnfs_get_sb-path}
use vsnfs.Super.Path.{path_walk, look, image, path_walk-Chain}

module _ {File : Type 0} (x : Sunrpc) (s : Strtoul) (vfs : Vfs File ReaddirRes) (e : Endian)
    (around : Surroundings) (empty : around.rqstp.head ≡ []) (eight : length around.resp.handle ≡ 8)
    (memory : around.alloc ≡ plenty) (table : Table) (env : MountEnv) (blank : VsnfsServer)
    (options : List (List ℕ))
    (new : (ino : ℕ) → (old : ClientInode) × (env.iget ino ≡ some old) × (old.is_new ≡ true))
    (newfh : VsnfsFh) where
  -- A mount of a device name "address:path" and a walk along names in it, through the RPC layer,
  -- whatever the server's table was before, where neither the kernel nor the server's memory refuses
  -- anything and the client's cache gives new inodes. The address has at most 15 bytes and no colon;
  -- the path is not empty, has no NUL and at most VSNFS_MAXPATHLEN bytes, and `path_lookup` finds a
  -- directory under it with a slash at its end; the file system has the names along the paths that
  -- are known of that directory alone and of what is found on the way (`Chain`), all with numbers of
  -- at most seven digits. Then the mount returns an active superblock and the client's inode of the
  -- directory; `vsnfs_lookup` of each name in the inode before succeeds and ends with the client's
  -- inode of the last, which has its number, its kind's mode and tables, and its handle; and the
  -- server's table has exactly the paths that the walk on known paths ends with.
  pub mount-path_walk :
      (addr path : List ℕ) (ino : ℕ) (names : List (List ℕ)) (last : Inode) (v : View)
      → (env.kzalloc ≡ true)
        × (env.kstrndup ≡ true)
        × (env.kmalloc ≡ true)
        × (env.d_alloc_root ≡ true)
      → (is_neg (env.in4_pton addr) ≡ false)
        × (is_neg env.rpc_create ≡ false)
        × (is_neg env.sget ≡ false)
        × (is_neg env.d_obtain_alias ≡ false)
      → has_colon addr ≡ false
      → length addr ≤ 15
      → has_nul path ≡ false
      → path ≢ []
      → length path ≤ maxpathlen
      → vfs.path_lookup (slashed directory path)
        ≡ (pos 0, some (record { i_ino = ino; kind = directory }))
      → ino < 10 ^ 7
      → Chain x s vfs e
          (nodes_view (record { ino = ino; path = slashed directory path } ∷ []))
          (record { i_ino = ino; kind = directory })
          names
          v
          last
      → let start : Inode = record { i_ino = ino; kind = directory } in
        (server : VsnfsServer) × (old old' : ClientInode) × (found : Table) × (ns' : List Node)
        × (vsnfs_get_sb s e env
              (vsnfs_proc_getroot x (serve x s vfs e around))
              table
              blank
              (addr ++ b':' ∷ path)
              options
            ≡ done (mounted (active_super server) (image around start old), found))
        × (path_walk (look x s vfs e around env.iget) newfh found (image around start old) names
            ≡ done (dentry (some (image around last old')), some ns'))
        × (nodes_view ns' ≡ v)
  mount-path_walk addr path ino names last v willing fine plain short clean ne fits at_root small
        chain =
      let start : Inode = record { i_ino = ino; kind = directory } in
      let (old, cached, fresh) = new ino in
      let (server, mount) =
        vsnfs_get_sb-path x s vfs e around empty eight memory table env blank options addr path ino
          old willing fine plain short clean ne fits at_root small (cached, fresh) in
      let (ns', old', walked, is) =
        path_walk-Chain x s vfs e around empty eight memory newfh env.iget new names
          (record { ino = ino; path = slashed directory path } ∷ []) start last old v small
          (λ h. cc) chain in
      (
        server,
        old,
        old',
        some (record { ino = ino; path = slashed directory path } ∷ []),
        ns',
        mount,
        walked,
        is,
      )

module _ {File User : Type 0} (x : Sunrpc) (s : Strtoul) (vfs : Vfs File ReaddirRes) (e : Endian)
    (around : Surroundings) (empty : around.rqstp.head ≡ []) (eight : length around.resp.handle ≡ 8)
    (memory : around.alloc ≡ plenty) (there : around.file_path ≡ true)
    (stack : length around.stack ≡ 8) (table : Table) (env : MountEnv) (blank : VsnfsServer)
    (options : List (List ℕ))
    (new : (ino : ℕ) → (old : ClientInode) × (env.iget ino ≡ some old) × (old.is_new ≡ true))
    (newfh : VsnfsFh) (filldir : User → Filldir → ℤ × User)
    (accepts : (u : User) (ev : Filldir) → is_neg (filldir u ev).0 ≡ false) where
  -- A mount of a device name "address:path", a walk along names in it and a listing of the directory
  -- where the walk ends, through the RPC layer, where neither the kernel nor the server's memory
  -- refuses anything and the client's cache gives new inodes. The address has at most 15 bytes and
  -- no colon; the path is not empty, has no NUL and at most VSNFS_MAXPATHLEN bytes, and `path_lookup`
  -- finds a directory under it with a slash at its end; the file system has the names along the known
  -- paths (`Chain`), all numbers have at most seven digits and the last is positive; the last
  -- directory's path is a C string shorter than VSNFS_MAXPATHLEN and can be opened, `vfs_readdir`
  -- does not fail, and the entries' numbers fit their words and all entries the page. Then the mount
  -- returns an active superblock and the client's inode of the root; `vsnfs_lookup` of each name in
  -- the inode before succeeds and ends with the client's inode of the last directory, with the
  -- operations of a directory; READDIR by the handle of that inode succeeds; and `filldir`, if it
  -- never refuses, gets every entry once and in order. The result is 0 if there is an entry, and
  -- -EBADCOOKIE for an empty directory.
  pub mount-path_walk-readdir :
      (addr path : List ℕ) (ino : ℕ) (names : List (List ℕ)) (last : ℕ) (v : View) (path' : List ℕ)
      (file : File) (generic_read_dir : ℤ) (rslack : ℕ) (before : List ℕ) (user : User)
      (entry : VsnfsEntry)
      → (env.kzalloc ≡ true)
        × (env.kstrndup ≡ true)
        × (env.kmalloc ≡ true)
        × (env.d_alloc_root ≡ true)
      → (is_neg (env.in4_pton addr) ≡ false)
        × (is_neg env.rpc_create ≡ false)
        × (is_neg env.sget ≡ false)
        × (is_neg env.d_obtain_alias ≡ false)
      → has_colon addr ≡ false
      → length addr ≤ 15
      → has_nul path ≡ false
      → path ≢ []
      → length path ≤ maxpathlen
      → vfs.path_lookup (slashed directory path)
        ≡ (pos 0, some (record { i_ino = ino; kind = directory }))
      → ino < 10 ^ 7
      → Chain x s vfs e
          (nodes_view (record { ino = ino; path = slashed directory path } ∷ []))
          (record { i_ino = ino; kind = directory })
          names
          v
          (record { i_ino = last; kind = directory })
      → 0 < last
      → last < 10 ^ 7
      → v last ≡ some path'
      → has_nul path' ≡ false
      → length path' < maxpathlen
      → vfs.filp_open path' ≡ some file
      → is_neg (vfs.vfs_readdir file (filler x e around.stack) (start_res s vfs e page_size)).0
        ≡ false
      → All IsSent (vfs.entries file)
      → total_words x e around.stack (vfs.entries file) ≤ entry_words s vfs e page_size
      → let here : Inode = record { i_ino = last; kind = directory } in
        (server : VsnfsServer) × (root : ClientInode) × (found : Table) × (made : ClientInode)
        × (ns' : List Node) × (page : List ℕ) × (left : Left User) × (vsnfs_get_sb s e env
              (vsnfs_proc_getroot x (serve x s vfs e around))
              table
              blank
              (addr ++ b':' ∷ path)
              options
            ≡ done (mounted (active_super server) root, found))
        × (root.i_ino ≡ ino)
        × (path_walk (look x s vfs e around env.iget) newfh found root names
            ≡ done (dentry (some made), some ns'))
        × (made.i_ino ≡ last)
        × (made.i_private ≡ some (fh_for around.resp here))
        × (file_table {User = User} x generic_read_dir made.i_fop
            ≡ some (vsnfs_dir_operations x generic_read_dir))
        × (vsnfs_proc_readdir x
              (serve x s vfs e around)
              (some ns')
              rslack
              (fh_for around.resp here)
              before
              page_size
            ≡ done ((pos 0, page), some ns'))
        × (vsnfs_readdir x filldir true (pos 0, page) 0 user entry ≡ done left)
        × (left.user ≡ deliver filldir user (vfs.entries file))
        × (left.res ≡ (if has_entry (vfs.entries file) then pos 0 else neg Constants.ebadcookie))
  mount-path_walk-readdir addr path ino names last v path' file generic_read_dir rslack before user
        entry willing fine plain short clean ne fits at_root small chain positive small' known
        clean' short' opens reads sent room =
      let start : Inode = record { i_ino = ino; kind = directory } in
      let here : Inode = record { i_ino = last; kind = directory } in
      let (server, old, old', found, ns', mount, walked, is) =
        mount-path_walk x s vfs e around empty eight memory table env blank options new newfh addr
          path ino names here v willing fine plain short clean ne fits at_root small chain in
      let opened =
        vsnfsd_open-known s vfs e ns' around.resp.handle last _ path' file positive small'
          (ap (λ (u : View). u last) is ∙ known) clean' short' opens in
      let (page, left, called, read, delivered, result) =
        vsnfs_readdir-rpc x s vfs e around empty (some ns') (fh_for around.resp here)
          (fh_for-IsFh around.resp here eight (λ h. cc)) rslack there stack filldir accepts file
          before user entry opened reads sent room in
      (
        server,
        image around start old,
        found,
        image around here old',
        ns',
        page,
        left,
        mount,
        refl,
        walked,
        refl,
        refl,
        refl,
        called,
        read,
        delivered,
        result,
      )
