-- ===== src/Callbacks/Tables.antt =====
-- The client's tables of callbacks: `vsnfs_dir_operations`, `vsnfs_dir_inode_operations` and
-- `vsnfs_dentry_operations` (vsnfsDir.c), `vsnfs_file_operations` and `vsnfs_file_inode_operations`
-- (vsnfsFile.c), and which of them an inode of `vsnfs_fhget` (vsnfsClient.c) has. A callback that a
-- table leaves out is none. The kernel's `generic_read_dir` is a parameter.
use vsnfs.Base.{
  ℕ, ◌^◌, ◌/◌, ◌%◌, ◌<◌, ◌≤◌, ◌≡◌, ◌≢◌, refl, List, [], Option, none, some, Bool, true, false, ℤ,
  pos, neg, Endian, Run, done, length,
}
use vsnfs.Protocol.{VsnfsFh, IsFh, maxnamlen}
use vsnfs.Kernel.{Sunrpc, Strtoul}
use vsnfs.Errno.Constants
use vsnfs.ClientXdr.{VsnfsEntry}
use vsnfs.Vfs.{Vfs, Inode, FileKind, regular, directory, other}
use vsnfs.ServerXdr.{ReaddirRes, has_nul_or_slash}
use vsnfs.Server.{Table, Reply}
use vsnfs.Server.Lookup.{fh_for, vsnfsd_proc_lookup}
use vsnfs.Rpc.{vsnfs_proc_lookup}
use vsnfs.Rpc.Serve.{Surroundings, serve}
use vsnfs.Dir.{Filldir, Left, vsnfs_readdir}
use vsnfs.Client.{
  Operations, initial, file_operations, dir_operations, HandleCall, ClientInode, Found, dentry,
  vsnfs_lookup,
}
use vsnfs.Client.Lookup.{mirror, mirror-i_ino, mirror-i_private, vsnfs_lookup-rpc}
use vsnfs.Callbacks.{
  vsnfs_opendir, vsnfs_create, vsnfs_mkdir, vsnfs_rmdir, vsnfs_permission, vsnfs_lookup_revalidate,
  vsnfs_dentry_delete, vsnfs_dentry_iput, vsnfs_file_open, vsnfs_file_read, vsnfs_file_write,
}

-- The types of `vsnfs_readdir` and `vsnfs_lookup` over what they are given here.
abbrev pub Readdir : Type 0 → Type 0
Readdir User =
    (User → Filldir → ℤ × User)
    → (page : Bool) → ℤ × List ℕ
    → (f_pos : ℕ) → User
    → VsnfsEntry
    → Run (Left User)

abbrev pub DirLookup : (Dentry State : Type 0) → Type 0
DirLookup Dentry State =
    State → (alloc : Bool) → Option VsnfsFh → List ℕ → VsnfsFh → Run (Found Dentry × State)

-- The entries of a `struct file_operations` that the client fills; `opens` is its `open`.
pub record FileOperations (User : Type 0) : Type 0 where
  pub read : Option ℤ
  pub write : Option ℤ
  pub readdir : Option (Readdir User)
  pub opens : Option ℤ

pub record InodeOperations (Dentry State : Type 0) : Type 0 where
  pub create : Option ℤ
  pub lookup : Option (DirLookup Dentry State)
  pub mkdir : Option ℤ
  pub rmdir : Option ℤ
  pub permission : Option (ℤ → ℤ)

record DentryOperations : Type 0 where
  d_revalidate : ℤ
  d_delete : ℤ
  d_iput : ClientInode → ClientInode

abbrev vsnfs_dentry_operations : DentryOperations
vsnfs_dentry_operations = record {
  d_revalidate = vsnfs_lookup_revalidate;
  d_delete = vsnfs_dentry_delete;
  d_iput = vsnfs_dentry_iput;
}

abbrev pub vsnfs_file_operations : {User : Type 0} → FileOperations User
vsnfs_file_operations = record {
  read = some vsnfs_file_read;
  write = some vsnfs_file_write;
  readdir = none;
  opens = some vsnfs_file_open;
}

abbrev pub vsnfs_file_inode_operations : {Dentry State : Type 0} → InodeOperations Dentry State
vsnfs_file_inode_operations = record {
  create = none;
  lookup = none;
  mkdir = none;
  rmdir = none;
  permission = some vsnfs_permission;
}

abbrev pub vsnfs_dir_operations :
    {User : Type 0} → Sunrpc → (generic_read_dir : ℤ) → FileOperations User
vsnfs_dir_operations x generic_read_dir = record {
  read = some generic_read_dir;
  write = none;
  readdir = some (vsnfs_readdir x);
  opens = some vsnfs_opendir;
}

-- The table that an inode's `i_fop` names; a new inode's own is the kernel's.
abbrev pub file_table : {User : Type 0} → Sunrpc → ℤ → Operations → Option (FileOperations User)
file_table x generic_read_dir initial = none
file_table x generic_read_dir file_operations = some vsnfs_file_operations
file_table x generic_read_dir dir_operations = some (vsnfs_dir_operations x generic_read_dir)

module _ {Dentry State : Type 0} (s : Strtoul) (e : Endian) (iget : ℕ → Option ClientInode)
    (d_materialise_unique : Option ClientInode → Dentry) (lookup : HandleCall State) where
  abbrev pub vsnfs_dir_inode_operations : InodeOperations Dentry State
  vsnfs_dir_inode_operations = record {
    create = some vsnfs_create;
    lookup = some (vsnfs_lookup s e iget d_materialise_unique lookup);
    mkdir = some vsnfs_mkdir;
    rmdir = some vsnfs_rmdir;
    permission = some vsnfs_permission;
  }

  -- The table that an inode's `i_op` names.
  abbrev pub inode_table : Operations → Option (InodeOperations Dentry State)
  inode_table initial = none
  inode_table file_operations = some vsnfs_file_inode_operations
  inode_table dir_operations = some vsnfs_dir_inode_operations

-- The file's type in a mode, S_IFMT: 4 for S_IFDIR and 8 for S_IFREG.
abbrev pub format : ℕ → ℕ
format mode = mode / 4096 % 16

module _ (User : Type 0) {Dentry State : Type 0} (x : Sunrpc) (generic_read_dir : ℤ) (s : Strtoul)
    (e : Endian) (iget : ℕ → Option ClientInode)
    (d_materialise_unique : Option ClientInode → Dentry) (lookup : HandleCall State) where
  -- What an inode of the client's can do, for each kind of inode that the server has. A directory
  -- can be opened, listed and searched, and nothing can be made in it; a file can neither be opened
  -- nor written, and it reads as empty.
  abbrev pub Operates : FileKind → ClientInode → Type 0
  Operates directory made =
      (fops : FileOperations User) × (iops : InodeOperations Dentry State) × (format made.i_mode
        ≡ 4)
      × (file_table x generic_read_dir made.i_fop ≡ some fops)
      × (inode_table s e iget d_materialise_unique lookup made.i_op ≡ some iops)
      × (fops.opens ≡ some (pos 0))
      × (fops.readdir ≡ some (vsnfs_readdir x))
      × (fops.write ≡ none)
      × (iops.lookup ≡ some (vsnfs_lookup s e iget d_materialise_unique lookup))
      × (iops.create ≡ some (neg Constants.eopnotsupp))
  Operates regular made =
      (fops : FileOperations User) × (iops : InodeOperations Dentry State) × (format made.i_mode
        ≡ 8)
      × (file_table x generic_read_dir made.i_fop ≡ some fops)
      × (inode_table s e iget d_materialise_unique lookup made.i_op ≡ some iops)
      × (fops.opens ≡ some (neg Constants.eopnotsupp))
      × (fops.read ≡ some (pos 0))
      × (fops.write ≡ some (neg Constants.eopnotsupp))
      × (fops.readdir ≡ none)
      × (iops.lookup ≡ none)
      × (iops.create ≡ none)
  Operates other made = ⊥

  pub mirror-Operates :
      (fh : VsnfsFh) (ino : ℕ) (kind : FileKind) (old : ClientInode)
      → kind ≢ other
      → Operates kind (mirror fh (record { i_ino = ino; kind = kind }) old)
  mirror-Operates fh ino directory old known = (
    vsnfs_dir_operations x generic_read_dir,
    vsnfs_dir_inode_operations s e iget d_materialise_unique lookup,
    refl,
    refl,
    refl,
    refl,
    refl,
    refl,
    refl,
    refl,
  )
  mirror-Operates fh ino regular old known = (
    vsnfs_file_operations, vsnfs_file_inode_operations, refl, refl, refl, refl, refl, refl, refl,
    refl, refl,
  )
  mirror-Operates fh ino other old known = absurd (known refl)

module _ (User : Type 0) {File Dentry : Type 0} (x : Sunrpc) (s : Strtoul)
    (vfs : Vfs File ReaddirRes) (e : Endian) (env : Surroundings) (empty : env.rqstp.head ≡ [])
    (eight : length env.resp.handle ≡ 8) (table : Table) (iget : ℕ → Option ClientInode)
    (d_materialise_unique : Option ClientInode → Dentry) (generic_read_dir : ℤ) where
  -- A client's lookup of a name of at most VSNFS_MAXNAMLEN bytes without NUL and slash, through the
  -- RPC layer, where the server's procedure returns status 0 with the handle that it makes for a
  -- file or directory whose number has at most seven digits, and the client's cache gives a new
  -- inode for that number: the server keeps the procedure's table, and the dentry's inode has the number
  -- and the handle of the server's inode, and the mode and the tables of its kind. In
  -- its tables a directory's `open` gives 0, `readdir` and `lookup` are `vsnfs_readdir` and
  -- `vsnfs_lookup` over the same server, there is no `write`, and `create` gives -EOPNOTSUPP; a
  -- file's `open` and `write` give -EOPNOTSUPP, `read` gives 0, and there is no `readdir`, `lookup`
  -- and `create`.
  pub vsnfs_lookup-Operates :
      (parent newfh : VsnfsFh) (name : List ℕ) (inode : Inode) (old : ClientInode) (r : Reply)
      → IsFh parent
      → length name ≤ maxnamlen
      → has_nul_or_slash name ≡ false
      → vsnfsd_proc_lookup s vfs e env.alloc table
          (record { fh = parent; filename = name; len = length name })
          env.resp
        ≡ done r
      → r.status ≡ 0
      → r.resp ≡ fh_for env.resp inode
      → inode.i_ino < 10 ^ 7
      → inode.kind ≢ other
      → iget inode.i_ino ≡ some old
      → old.is_new ≡ true
      → (made : ClientInode) × (vsnfs_lookup s e iget d_materialise_unique
            (vsnfs_proc_lookup x (serve x s vfs e env))
            table
            true
            (some parent)
            name
            newfh
          ≡ done (dentry (d_materialise_unique (some made)), r.table))
        × (made.i_ino ≡ inode.i_ino)
        × (made.i_private ≡ some (fh_for env.resp inode))
        × Operates User x generic_read_dir s e iget d_materialise_unique
            (vsnfs_proc_lookup x (serve x s vfs e env))
            inode.kind
            made
  vsnfs_lookup-Operates parent newfh name inode old r hp short plain ran zero same small known found
        new =
      (
        mirror (fh_for env.resp inode) inode old,
        vsnfs_lookup-rpc x s vfs e env empty eight table iget d_materialise_unique parent newfh name
            inode old r hp short plain ran zero same small known found new,
        mirror-i_ino (fh_for env.resp inode) inode.i_ino inode.kind old,
        mirror-i_private (fh_for env.resp inode) inode.i_ino inode.kind old,
        mirror-Operates User x generic_read_dir s e iget d_materialise_unique
            (vsnfs_proc_lookup x (serve x s vfs e env)) (fh_for env.resp inode) inode.i_ino
            inode.kind old known,
      )
