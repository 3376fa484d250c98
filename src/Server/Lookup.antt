-- ===== src/Server/Lookup.antt =====
-- server/vsnfsproc.c: `vsnfsd_proc_lookup`.
use vsnfs.Base.{
  ℕ, ◌+◌, List, ◌∷◌, ◌++◌, Option, none, some, leb, if◌then◌else◌, ℤ, Endian, Run, done, oops,
  null_pointer, out_of_bounds, need, ◌>>=◌, ◌>>◌, length, take,
}
use vsnfs.Protocol.{VsnfsFh, VsnfsStat, vsnfserr, maxpathlen}
use vsnfs.Kernel.{Strtoul}
use vsnfs.Handle.{handle_of}
use vsnfs.Vfs.{Vfs, Inode, FileKind, regular, directory, other}
use vsnfs.ServerXdr.{LookupArgs}
use vsnfs.Server.{
  Node, Kmalloc, Reply, nodes, find_node, until_nul, fh_memory, minus, word_of_int, add_slash,
  type_of,
}

-- `path` is a buffer of VSNFS_MAXPATHLEN + 1 bytes.
abbrev pub room : ℕ
room = maxpathlen + 1

-- Only a directory's path is made to end in a slash.
abbrev pub stored_path : FileKind → List ℕ → Run (List ℕ)
stored_path directory path = add_slash room path
stored_path regular path = done path
stored_path other path = done path

-- The inode's node is put in front, unless the table has one for it. A node is used without a test
-- that it was allocated.
unfoldable pub remember :
    Endian → Kmalloc → List Node → ℕ → List ℕ → (status : ℕ) → Run (List Node × ℕ)
unfolding find_node
remember e k ns ino path status = elim (find_node ino ns) [
  | some _ ↦ done (ns, status)
  | none ↦
      if k.node
      then (if k.node_path
          then done (record { ino = ino; path = path } ∷ ns, status)
          else done (ns, minus (vsnfserr e VsnfsStat.nospc)))
      else oops null_pointer
]

-- The handle that is made for an inode, over what the reply held.
abbrev pub fh_for : VsnfsFh → Inode → VsnfsFh
fh_for resp inode = record {
  handle = handle_of resp.handle inode.i_ino;
  type = type_of inode.kind resp.type;
}

-- From `path_lookup` on. A failed lookup is not noticed: `rc` is unsigned, so `rc < 0` never holds.
unfoldable pub lookup_inode :
    Endian → Kmalloc → List Node → VsnfsFh → List ℕ → ℤ → Option Inode → Run Reply
unfolding remember
lookup_inode e k ns resp path rc none = oops null_pointer
lookup_inode e k ns resp path rc (some inode) = do
  path' ← stored_path inode.kind path
  (ns', status) ← remember e k ns inode.i_ino path' (word_of_int rc)
  done (record { table = some ns'; status = status; resp = fh_for resp inode })

module _ {File State : Type 0} (s : Strtoul) (vfs : Vfs File State) (e : Endian) where
  -- The child's path behind that of the directory's node: both copies go into the buffer.
  unfoldable pub lookup_child : Kmalloc → List Node → LookupArgs → VsnfsFh → Option Node → Run Reply
  unfolding lookup_inode until_nul
  lookup_child k ns args resp none =
      done (record { table = some ns; status = vsnfserr e VsnfsStat.ok; resp = resp })
  lookup_child k ns args resp (some parent) =
      let no_space : Run Reply =
        done
          (record { table = some ns; status = minus (vsnfserr e VsnfsStat.nospc); resp = resp }) in
      let len = args.len + length parent.path in
      let path = until_nul (parent.path ++ take args.len args.filename) in
      if k.path
      then (do
        need (leb (length parent.path + 1) room) out_of_bounds
        need (leb (len + 1) room) out_of_bounds
        if k.nd
            then lookup_inode e k ns resp path (vfs.path_lookup path).0 (vfs.path_lookup path).1
            else no_space)
      else no_space

  unfoldable pub vsnfsd_proc_lookup :
      Kmalloc → Option (List Node) → LookupArgs → VsnfsFh → Run Reply
  unfolding lookup_child
  vsnfsd_proc_lookup k table args resp = do
    ns ← nodes table
    lookup_child k ns args resp (find_node (s.simple_strtoul (fh_memory e args.fh)) ns)
