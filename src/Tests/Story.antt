-- ===== src/Tests/Story.antt =====
-- A mount with a walk and a listing, a number that does not fit its handle, and a name that does not
-- exist: Super.Story, Rpc.Truncated, Super.Missing.
use vsnfs.Base.{
  be32, ℕ, ◌/◌, ◌^◌, ◌<◌, ◌≡◌, refl, List, [], ◌∷◌, ◌++◌, some, none, true, little, pos, neg,
  if◌then◌else◌, done, oops, null_pointer, arith,
}
use vsnfs.Kernel.{page_size}
use vsnfs.Errno.Constants
use vsnfs.ServerXdr.{ReaddirRes, has_nul, has_nul_or_slash}
use vsnfs.Server.{Node, Table, find_node, ends_in_slash}
use vsnfs.Server.Lookup.{fh_for}
use vsnfs.Server.Spec.{nodes_view}
use vsnfs.Vfs.{Vfs, Inode, Dirent, regular}
use vsnfs.Dir.{Filldir, Left, vsnfs_readdir}
use vsnfs.Readdir.Loop.{deliver}
use vsnfs.Client.{ClientInode, dentry}
use vsnfs.Callbacks.Tables.{file_table, vsnfs_dir_operations}
use vsnfs.Rpc.{vsnfs_proc_getroot, vsnfs_proc_readdir}
use vsnfs.Rpc.Ops.{vsnfs_clientops}
use vsnfs.Rpc.Serve.{serve}
use vsnfs.Rpc.Walk.{IsBelow}
use vsnfs.Rpc.Truncated.{lookup-read_cut}
use vsnfs.Mount.{VsnfsServer}
use vsnfs.Super.{MountEnv, mounted, vsnfs_get_sb}
use vsnfs.Super.Mounted.{active_super}
use vsnfs.Super.Path.{path_walk, look, image}
use vsnfs.Super.Missing.{path_walk-missing}
use vsnfs.Super.Story.{mount-path_walk, mount-path_walk-readdir}
use vsnfs.Tests.Instances.{
  some_fh, sunrpc, strtoul, vfs, same_text, surroundings, root_path, name_b, roomy, page_hi,
}
use vsnfs.Tests.Client.{new_inode}
use vsnfs.Tests.Mount.{blank_server, short_name}
use vsnfs.Tests.Readdir.{note_entry, blank_entry}
use vsnfs.Tests.Super.{willing}
use vsnfs.Tests.Walk.{
  at_file, inode_f, IsBelow-inode_f, root_nodes, tree, dir_path, dirent_f, in_dir, inode_a, inode_d,
  IsBelow-inode_d,
}

-- A kernel that refuses nothing and whose cache is empty.
abbrev uncached : MountEnv
uncached = record willing { iget = λ ino. some new_inode }

mount-path_walk_example :
    (server : VsnfsServer) × (old old' : ClientInode) × (found : Table) × (ns' : List Node)
    × (vsnfs_get_sb strtoul little uncached
          (vsnfs_proc_getroot sunrpc (serve sunrpc strtoul tree little surroundings))
          none
          blank_server
          (short_name ++ b':' ∷ root_path)
          []
        ≡ done (mounted (active_super server) (image surroundings inode_a old), found))
    × (path_walk
          (look sunrpc strtoul tree little surroundings uncached.iget)
          some_fh
          found
          (image surroundings inode_a old)
          ((b'd' ∷ []) ∷ (b'f' ∷ []) ∷ [])
        ≡ done (dentry (some (image surroundings inode_f old')), some ns'))
    × (nodes_view ns' ≡ at_file)
unfolding find_node has_nul ends_in_slash
mount-path_walk_example =
    mount-path_walk sunrpc strtoul tree little surroundings refl refl refl none uncached
      blank_server [] (λ ino. (new_inode, refl, refl)) some_fh short_name root_path 2
      ((b'd' ∷ []) ∷ (b'f' ∷ []) ∷ []) inode_f at_file (refl, refl, refl, refl)
      (refl, refl, refl, refl) refl (omega arith) refl (λ h. cc) (omega arith) refl (omega arith)
      (
        root_path,
        inode_d,
        IsBelow-inode_d,
        omega arith,
        (dir_path ++ b'/' ∷ [], inode_f, IsBelow-inode_f, omega arith, (refl, refl)),
      )

mount-path_walk-readdir_example :
    (server : VsnfsServer) × (root : ClientInode) × (found : Table) × (made : ClientInode)
    × (ns' : List Node) × (page : List ℕ) × (left : Left (List Filldir)) × (vsnfs_get_sb strtoul
          little uncached
          (vsnfs_proc_getroot sunrpc (serve sunrpc strtoul tree little surroundings))
          none
          blank_server
          (short_name ++ b':' ∷ root_path)
          []
        ≡ done (mounted (active_super server) root, found))
    × (root.i_ino ≡ 2)
    × (path_walk
          (look sunrpc strtoul tree little surroundings uncached.iget)
          some_fh
          found
          root
          ((b'd' ∷ []) ∷ [])
        ≡ done (dentry (some made), some ns'))
    × (made.i_ino ≡ 12)
    × (made.i_private ≡ some (fh_for some_fh inode_d))
    × (file_table {User = List Filldir} sunrpc (neg 21) made.i_fop
        ≡ some (vsnfs_dir_operations sunrpc (neg 21)))
    × (vsnfs_proc_readdir sunrpc
          (serve sunrpc strtoul tree little surroundings)
          (some ns')
          8
          (fh_for some_fh inode_d)
          []
          page_size
        ≡ done ((pos 0, page), some ns'))
    × (vsnfs_readdir sunrpc note_entry true (pos 0, page) 0 [] blank_entry ≡ done left)
    × (left.user ≡ deliver note_entry [] (dirent_f ∷ []))
    × (left.res ≡ pos 0)
unfolding find_node has_nul ends_in_slash
mount-path_walk-readdir_example =
    mount-path_walk-readdir sunrpc strtoul tree little surroundings refl refl refl refl refl none
      uncached blank_server [] (λ ino. (new_inode, refl, refl)) some_fh note_entry (λ u ev. refl)
      short_name root_path 2 ((b'd' ∷ []) ∷ []) 12 in_dir (dir_path ++ b'/' ∷ []) (dirent_f ∷ [])
      (neg 21) 8 [] [] blank_entry (refl, refl, refl, refl) (refl, refl, refl, refl) refl
      (omega arith) refl (λ h. cc) (omega arith) refl (omega arith)
      (root_path, inode_d, IsBelow-inode_d, omega arith, (refl, refl)) (omega arith) (omega arith)
      refl refl (omega arith) refl refl ((omega arith, omega arith, omega arith), tt) (omega arith)

abbrev name_f : List ℕ
name_f = b'f' ∷ []

abbrev inode_big : Inode
inode_big = record { i_ino = 20000003; kind = regular }

-- The directory "/a/" with a file "b" whose number has eight digits, and "/a/f", whose number has
-- seven of them.
abbrev crowded : Vfs (List Dirent) ReaddirRes
crowded = record (vfs {State = ReaddirRes}) {
  path_lookup = λ path.
      if same_text path (root_path ++ name_b)
      then (pos 0, some inode_big)
      else (neg Constants.enoent, none);
  filp_open = λ path. if same_text path (root_path ++ name_f) then some [] else none;
}

abbrev crowded_nodes : List Node
crowded_nodes =
    record { ino = 2000000; path = root_path ++ name_f } ∷ record { ino = 2; path = root_path } ∷ []

IsBelow-inode_big :
    IsBelow sunrpc strtoul crowded little
      (nodes_view crowded_nodes)
      inode_a
      root_path
      name_b
      inode_big
unfolding find_node has_nul has_nul_or_slash
IsBelow-inode_big = record {
  known = refl;
  clean = refl;
  some_path = λ h. cc;
  short = omega arith;
  named = refl;
  fits = omega arith;
  looked_up = refl;
  kind = λ h. cc;
}

lookup-read_cut_example :
    let ops = vsnfs_clientops sunrpc (serve sunrpc strtoul crowded little roomy) in
    (20000003 / 10 ^ 1 < 20000003)
    × (ns' : List Node) × (ops.lookup
          (some crowded_nodes)
          (record { fh = fh_for some_fh inode_a; filename = name_b; len = 1 })
          some_fh
        ≡ done ((pos 0, fh_for some_fh inode_big), some ns'))
    × (ops.read (some ns') 8 100 (fh_for some_fh inode_big) [] 7 4096 5
        ≡ done ((pos 0, page_hi, 5), some ns'))
unfolding find_node has_nul be32
lookup-read_cut_example =
    lookup-read_cut sunrpc strtoul crowded little roomy refl refl refl refl some_fh crowded_nodes
      inode_a inode_big root_path name_b 0 (root_path ++ name_f) [] 8 100 [] 7 4096 5 2 2
      (b'h' ∷ b'i' ∷ []) (omega arith) (λ h. cc) IsBelow-inode_big (omega arith) (omega arith)
      (omega arith) refl refl (omega arith) refl (omega arith) (omega arith) refl

path_walk-missing_example :
    path_walk
      (look sunrpc strtoul tree little surroundings uncached.iget)
      some_fh
      (some root_nodes)
      (image surroundings inode_a new_inode)
      ((b'd' ∷ []) ∷ (b'z' ∷ []) ∷ name_b ∷ [])
    ≡ oops null_pointer
unfolding find_node has_nul has_nul_or_slash ends_in_slash
path_walk-missing_example =
    path_walk-missing sunrpc strtoul tree little surroundings refl refl refl some_fh uncached.iget
      (λ ino. (new_inode, refl, refl)) ((b'd' ∷ []) ∷ []) (b'z' ∷ []) (name_b ∷ []) root_nodes
      inode_a inode_d new_inode in_dir (dir_path ++ b'/' ∷ []) (omega arith) (λ h. cc)
      (root_path, inode_d, IsBelow-inode_d, omega arith, (refl, refl)) refl refl (omega arith) refl
      (omega arith) refl
