-- ===== src/Client.antt =====
-- The client's inodes and its lookup: `vsnfs_fhget` (vsnfsClient.c), `vsnfs_do_lookup` and
-- `vsnfs_lookup` (vsnfsDir.c). The inode cache, the dentry cache and the call of the server are
-- parameters. The memory for the new handle is taken to be there, which the code does not test.
use vsnfs.Base.{
  ℕ, List, Option, none, some, Bool, true, false, ◌==◌, ltb, if◌then◌else◌, ℤ, pos, neg, eqb,
  is_neg, Endian, Run, done, oops, null_pointer, ◌>>=◌, length,
}
use vsnfs.Protocol.{VsnfsFh, VsnfsStat, code, reg, dir, maxnamlen}
use vsnfs.Kernel.{Strtoul}
use vsnfs.ClientXdr.{LookupArgs}
use vsnfs.Server.{fh_memory}
use vsnfs.Errno.Constants
pub mod Lookup

-- Which table of operations an inode has.
pub data Operations : Type 0 where
  initial file_operations dir_operations : Operations

-- The fields of a `struct inode` that `vsnfs_fhget` sets, whether it is new and locked, and how
-- many references were put.
pub record ClientInode : Type 0 where
  pub i_ino : ℕ
  pub i_op : Operations
  pub i_fop : Operations
  pub i_mode : ℕ
  pub i_size : ℕ
  pub i_nlink : ℕ
  pub i_private : Option VsnfsFh
  pub is_new : Bool
  pub puts : ℕ

-- `S_IFREG | S_IRWXUGO` and `S_IFDIR | S_IALLUGO`
abbrev pub reg_mode : ℕ
reg_mode = 33279

abbrev pub dir_mode : ℕ
dir_mode = 20479

-- VSNFS_MAXDATA and VSNFS_DIRSIZE
abbrev pub file_size : ℕ
file_size = 4096

-- A new inode of a handle. That of an unknown type is put, but it is returned all the same.
unfoldable pub fill_inode : VsnfsFh → (hash : ℕ) → ClientInode → ClientInode
fill_inode fh hash inode =
    let named : ClientInode = record inode {
      i_ino = hash;
      i_op = file_operations;
      is_new = false;
    } in
    if fh.type == reg
    then record named {
      i_fop = file_operations;
      i_mode = reg_mode;
      i_size = file_size;
      i_private = some fh;
    }
    else if fh.type == dir
    then record named {
      i_op = dir_operations;
      i_fop = dir_operations;
      i_mode = dir_mode;
      i_size = file_size;
      i_nlink = 2;
      i_private = some fh;
    }
    else record named { puts = 1 }

-- `iget` is `iget_locked(sb, hash)`: none for null or an error. The result is the inode, or none for
-- -ENOMEM as a pointer.
unfoldable pub vsnfs_fhget :
    Strtoul → Endian → (ℕ → Option ClientInode) → VsnfsFh → Option ClientInode
unfolding fill_inode
vsnfs_fhget s e iget fh =
    let hash = s.simple_strtoul (fh_memory e fh) in
    elim (iget hash) [
      | none ↦ none
      | some inode ↦ some (if inode.is_new then fill_inode fh hash inode else inode)
    ]

-- A call of the server that answers with a handle: the status and the handle, which held another
-- before, and the server's state.
abbrev pub HandleCall : Type 0 → Type 0
HandleCall State = State → LookupArgs → VsnfsFh → Run ((ℤ × VsnfsFh) × State)

module _ {State : Type 0} (lookup : HandleCall State) (state : State) where
  -- `parent` is the directory's `i_private`. Each failure of the call becomes -VSNFSERR_REMOTE.
  unfoldable pub vsnfs_do_lookup :
      (alloc : Bool) → Option VsnfsFh → List ℕ → VsnfsFh → Run ((ℤ × VsnfsFh) × State)
  vsnfs_do_lookup false parent name fh = done ((neg Constants.enomem, fh), state)
  vsnfs_do_lookup true none name fh = oops null_pointer
  vsnfs_do_lookup true (some parent) name fh = do
    ((ret, fh'), state') ←
        lookup state (record { fh = parent; filename = name; len = length name }) fh
    done ((if eqb ret (pos 0) then pos 0 else neg (code VsnfsStat.remote), fh'), state')

-- What `vsnfs_lookup` returns: what `d_materialise_unique` made, or an errno as a pointer.
pub data Found (Dentry : Type 0) : Type 0 where
  dentry : Dentry → Found Dentry
  err_dentry : ℤ → Found Dentry

module _ {Dentry State : Type 0} (s : Strtoul) (e : Endian) (iget : ℕ → Option ClientInode)
    (d_materialise_unique : Option ClientInode → Dentry) (lookup : HandleCall State)
    (state : State) where
  -- What follows a call of the server.
  abbrev pub vsnfs_found : ℤ → VsnfsFh → Found Dentry
  vsnfs_found ret fh =
      if eqb ret (neg Constants.enoent)
      then dentry (d_materialise_unique none)
      else if is_neg ret
      then err_dentry ret
      else elim (vsnfs_fhget s e iget fh) [
        | none ↦ err_dentry (neg Constants.einval)
        | some inode ↦ dentry (d_materialise_unique (some inode))
      ]

  unfoldable pub vsnfs_lookup :
      (alloc : Bool) → Option VsnfsFh → List ℕ → (newfh : VsnfsFh) → Run (Found Dentry × State)
  unfolding vsnfs_do_lookup vsnfs_fhget
  vsnfs_lookup alloc parent name newfh =
      if ltb maxnamlen (length name)
      then done (err_dentry (neg Constants.enametoolong), state)
      else (do
        ((ret, fh), state') ← vsnfs_do_lookup lookup state alloc parent name newfh
        done (vsnfs_found ret fh, state'))
