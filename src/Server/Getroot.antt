-- ===== src/Server/Getroot.antt =====
-- server/vsnfsproc.c: `vsnfsd_proc_getroot`.
use vsnfs.Base.{
  ℕ, ◌+◌, List, [], ◌∷◌, Option, none, some, if◌then◌else◌, ℤ, Endian, Run, done, oops,
  null_pointer, ◌>>=◌, take,
}
use vsnfs.Protocol.{VsnfsFh, VsnfsStat, vsnfserr}
use vsnfs.Handle.{handle_of}
use vsnfs.Vfs.{Vfs, Inode, regular}
use vsnfs.ServerXdr.{GetrootArgs}
use vsnfs.Server.{Table, Kmalloc, Reply, until_nul, minus, word_of_int, add_slash, type_of}

-- The table is emptied, then the root's node is put in; its memory may be missing.
unfoldable pub fresh_table : Endian → Kmalloc → ℕ → List ℕ → (status : ℕ) → Run (Table × ℕ)
fresh_table e k ino path status =
    if k.node
    then (if k.node_path
        then done (some (record { ino = ino; path = path } ∷ []), status)
        else done (some [], minus (vsnfserr e VsnfsStat.nospc)))
    else oops null_pointer

-- From `path_lookup` on. A regular file is refused after the handle's bytes are written.
unfoldable pub getroot_inode :
    Endian → Kmalloc → Table → VsnfsFh → List ℕ → ℤ → Option Inode → Run Reply
unfolding fresh_table
getroot_inode e k table resp path ret none = oops null_pointer
getroot_inode e k table resp path ret (some root) =
    let handle = handle_of resp.handle root.i_ino in
    elim root.kind [
      | regular ↦ done (record {
        table = table;
        status = minus (vsnfserr e VsnfsStat.notdir);
        resp = record resp { handle = handle };
      })
      | _ ↦ do
        (table', status) ← fresh_table e k root.i_ino path (word_of_int ret)
        done (record {
          table = table';
          status = status;
          resp = record { handle = handle; type = type_of root.kind resp.type };
        })
    ]

module _ {File State : Type 0} (vfs : Vfs File State) (e : Endian) where
  -- `path` has `len + 2` bytes, enough for a slash and a NUL.
  unfoldable pub vsnfsd_proc_getroot : Kmalloc → Table → GetrootArgs → VsnfsFh → Run Reply
  unfolding getroot_inode add_slash until_nul
  vsnfsd_proc_getroot k table args resp =
      let no_space : Run Reply =
        done (record { table = table; status = minus (vsnfserr e VsnfsStat.nospc); resp = resp }) in
      if k.nd
      then (if k.path
          then (do
            raw ← add_slash (args.len + 2) (take args.len args.path)
            let path = until_nul raw
            getroot_inode e k table resp path (vfs.path_lookup path).0 (vfs.path_lookup path).1)
          else no_space)
      else no_space
