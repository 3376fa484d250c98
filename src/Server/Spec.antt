-- ===== src/Server/Spec.antt =====
-- What the lookup table of server/vsnfsproc.c means, with the list and its order forgotten: a path
-- for some of the inode numbers. What a LOOKUP may do to it, whatever memory there is.
use vsnfs.Base.{ℕ, ◌≡◌, List, ◌++◌, take, Option, none, some, ◌==◌, if◌then◌else◌, Endian}
use vsnfs.Protocol.{VsnfsFh, VsnfsStat, vsnfserr}
use vsnfs.Kernel.{Strtoul}
use vsnfs.Vfs.{Vfs, Inode}
use vsnfs.ServerXdr.{LookupArgs}
use vsnfs.Server.{Node, Table, find_node, until_nul, fh_memory, minus, word_of_int}
use vsnfs.Server.Lookup.{fh_for}
use vsnfs.Server.Resolve.{slashed}

abbrev pub View : Type 0
View = ℕ → Option (List ℕ)

abbrev pub path_of : Option Node → Option (List ℕ)
path_of none = none
path_of (some n) = some n.path

abbrev pub nodes_view : List Node → View
nodes_view ns ino = path_of (find_node ino ns)

-- A table that was not made yet knows nothing.
abbrev pub view : Table → View
view none ino = none
view (some ns) ino = nodes_view ns ino

abbrev pub or_path : Option (List ℕ) → List ℕ → List ℕ
or_path none path = path
or_path (some old) path = old

-- A path for one more inode number, which keeps the path that it has.
abbrev pub learn : View → ℕ → List ℕ → View
learn v ino path j = if ino == j then some (or_path (v ino) path) else v j

module _ {File State : Type 0} (s : Strtoul) (vfs : Vfs File State) (e : Endian) where
  -- The path of a name in a directory.
  abbrev pub child : List ℕ → LookupArgs → List ℕ
  child parent args = until_nul (parent ++ take args.len args.filename)

  -- A lookup from the table `v` to `v'`, with the status and the handle of its reply: the handle is
  -- not known; or memory is short; or `path_lookup` finds an inode, which gets its handle and a path.
  pub data LookupSpec (v : View) (args : LookupArgs) (resp : VsnfsFh) (v' : View) (status : ℕ)
      (resp' : VsnfsFh) : Type 0 where
    unknown :
        v (s.simple_strtoul (fh_memory e args.fh)) ≡ none
        → v' ≡ v
        → status ≡ vsnfserr e VsnfsStat.ok
        → resp' ≡ resp
        → LookupSpec v args resp v' status resp'
    no_space :
        v' ≡ v
        → status ≡ minus (vsnfserr e VsnfsStat.nospc)
        → LookupSpec v args resp v' status resp'
    found :
        (parent : List ℕ) (inode : Inode)
        → v (s.simple_strtoul (fh_memory e args.fh)) ≡ some parent
        → (vfs.path_lookup (child parent args)).1 ≡ some inode
        → v' ≡ learn v inode.i_ino (slashed inode.kind (child parent args))
        → status ≡ word_of_int (vfs.path_lookup (child parent args)).0
        → resp' ≡ fh_for resp inode
        → LookupSpec v args resp v' status resp'
