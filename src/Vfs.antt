-- ===== src/Vfs.antt =====
-- What the server uses of the kernel's file systems, as parameters: `path_lookup`, `filp_open`,
-- `filp_close`, `vfs_readdir` and `vfs_read`.
use vsnfs.Base.{ℕ, ◌≡◌, List, [], ◌∷◌, Option, ℤ, pos, eqb, if◌then◌else◌}

pub data FileKind : Type 0 where
  regular directory other : FileKind

pub record Inode : Type 0 where
  pub i_ino : ℕ
  pub kind : FileKind

-- What a file system hands to the filler for one directory entry.
pub record Dirent : Type 0 where
  pub name : List ℕ
  pub offset : ℕ
  pub ino : ℕ
  pub d_type : ℕ

-- A filler is called for each entry in turn, until it answers other than 0.
unfoldable pub fill_all {ℓ} : {S : Type ℓ} → (Dirent → S → ℤ × S) → List Dirent → S → S
fill_all fill [] s = s
fill_all fill (d ∷ ds) s =
    if eqb (fill d s).0 (pos 0) then fill_all fill ds (fill d s).1 else (fill d s).1

-- `path_lookup` gives its return value, and the inode of `nd->path.dentry` unless that is null.
-- `filp_open` gives null for an error pointer. `vfs_read` gives its return value, the bytes that it
-- put into the buffer, and the new position. `State` is the state of a `vfs_readdir` filler.
pub record Vfs (File State : Type 0) : Type 0 where
  pub path_lookup : List ℕ → ℤ × Option Inode
  pub filp_open : List ℕ → Option File
  pub filp_close : File → ℤ
  pub entries : File → List Dirent
  pub vfs_readdir : File → (Dirent → State → ℤ × State) → State → ℤ × State
  pub vfs_readdir_lem :
      (f : File) (fill : Dirent → State → ℤ × State) (s : State)
      → (vfs_readdir f fill s).1 ≡ fill_all fill (entries f) s
  pub vfs_read : File → (count position : ℕ) → ℤ × List ℕ × ℕ
