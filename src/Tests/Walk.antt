-- ===== src/Tests/Walk.antt =====
-- A walk and what is done at its end: Rpc.Arrive.
use vsnfs.Base.{
  be32, ℕ, ◌≡◌, refl, List, [], ◌∷◌, ◌++◌, some, none, little, pos, neg, if◌then◌else◌, done, arith,
}
use vsnfs.Errno.Constants
use vsnfs.ServerXdr.{ReaddirRes, has_nul, has_nul_or_slash}
use vsnfs.Server.{Node, find_node, ends_in_slash}
use vsnfs.Server.Lookup.{fh_for}
use vsnfs.Server.Spec.{View, nodes_view, learn}
use vsnfs.Vfs.{Vfs, Inode, Dirent, directory, regular}
use vsnfs.Rpc.Ops.{vsnfs_clientops}
use vsnfs.Rpc.Walk.{walk, IsBelow}
use vsnfs.Rpc.Arrive.{walk-read}
use vsnfs.Rpc.Serve.{serve}
use vsnfs.Tests.Instances.{some_fh, sunrpc, strtoul, vfs, same_text, root_path, roomy, page_hi}

abbrev pub dir_path : List ℕ
dir_path = root_path ++ b'd' ∷ []

abbrev pub file_path : List ℕ
file_path = (dir_path ++ b'/' ∷ []) ++ b'f' ∷ []

abbrev pub inode_a : Inode
inode_a = record { i_ino = 2; kind = directory }

abbrev pub inode_d : Inode
inode_d = record { i_ino = 12; kind = directory }

abbrev pub inode_f : Inode
inode_f = record { i_ino = 13; kind = regular }

abbrev pub dirent_f : Dirent
dirent_f = record { name = b'f' ∷ []; offset = 1; ino = 13; d_type = 8 }

-- The directory "/a/" with a directory "d" with a file "f".
abbrev pub tree : Vfs (List Dirent) ReaddirRes
tree = record (vfs {State = ReaddirRes}) {
  path_lookup = λ path.
      if same_text path root_path
      then (pos 0, some inode_a)
      else if same_text path dir_path
      then (pos 0, some inode_d)
      else if same_text path file_path
      then (pos 0, some inode_f)
      else (neg Constants.enoent, none);
  filp_open = λ path.
      if same_text path (dir_path ++ b'/' ∷ [])
      then some (dirent_f ∷ [])
      else if same_text path file_path
      then some []
      else none;
}

abbrev pub root_nodes : List Node
root_nodes = record { ino = 2; path = root_path } ∷ []

-- What is known after a lookup of "d", and after one of "f" behind it.
abbrev pub in_dir : View
in_dir = learn (nodes_view root_nodes) 12 (dir_path ++ b'/' ∷ [])

abbrev pub at_file : View
at_file = learn in_dir 13 file_path

pub IsBelow-inode_d :
    IsBelow sunrpc strtoul tree little (nodes_view root_nodes) inode_a root_path (b'd' ∷ []) inode_d
unfolding find_node has_nul has_nul_or_slash
IsBelow-inode_d = record {
  known = refl;
  clean = refl;
  some_path = λ h. cc;
  short = omega arith;
  named = refl;
  fits = omega arith;
  looked_up = refl;
  kind = λ h. cc;
}

pub IsBelow-inode_f :
    IsBelow sunrpc strtoul tree little in_dir inode_d (dir_path ++ b'/' ∷ []) (b'f' ∷ []) inode_f
unfolding find_node has_nul has_nul_or_slash
IsBelow-inode_f = record {
  known = refl;
  clean = refl;
  some_path = λ h. cc;
  short = omega arith;
  named = refl;
  fits = omega arith;
  looked_up = refl;
  kind = λ h. cc;
}

walk-read_example :
    let ops = vsnfs_clientops sunrpc (serve sunrpc strtoul tree little roomy) in
    (ns' : List Node) × (walk ops some_fh
        (some root_nodes)
        (fh_for some_fh inode_a)
        ((b'd' ∷ []) ∷ (b'f' ∷ []) ∷ [])
      ≡ done ((pos 0, fh_for some_fh inode_f), some ns'))
    × (ops.read (some ns') 8 100 (fh_for some_fh inode_f) [] 7 4096 5
        ≡ done ((pos 0, page_hi, 5), some ns'))
unfolding find_node has_nul ends_in_slash be32
walk-read_example =
    walk-read sunrpc strtoul tree little roomy refl refl refl refl some_fh
      ((b'd' ∷ []) ∷ (b'f' ∷ []) ∷ []) root_nodes inode_a inode_f at_file file_path [] (omega arith)
      (λ h. cc)
      (
        root_path,
        inode_d,
        IsBelow-inode_d,
        omega arith,
        (dir_path ++ b'/' ∷ [], inode_f, IsBelow-inode_f, omega arith, (refl, refl)),
      )
      (omega arith) (omega arith) (λ h. cc) refl refl (omega arith) refl 8 100 [] 7 4096 5 2 2
      (b'h' ∷ b'i' ∷ []) (omega arith) (omega arith) refl
