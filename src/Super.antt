-- ===== src/Super.antt =====
-- vsnfsClient.c: the mount of a file system, from the RPC client and the root's handle to the
-- superblock and its root. What the kernel's calls return is a parameter.
use vsnfs.Base.{
  ℕ, List, [], ◌∷◌, Option, none, some, Bool, true, false, if◌then◌else◌, ℤ, pos, neg, eqb, is_neg,
  Endian, Run, done, oops, null_pointer, out_of_bounds, ◌>>=◌, length,
}
use vsnfs.Protocol.{VsnfsFh, VsnfsStat, code}
use vsnfs.Kernel.{Strtoul}
use vsnfs.ClientXdr.{GetrootArgs}
use vsnfs.Errno.Constants
use vsnfs.Client.{ClientInode, vsnfs_fhget}
use vsnfs.Callbacks.{vsnfs_write_inode}
use vsnfs.Mount.{VsnfsServer, Token, vsnfs_parse_mount_options}
pub mod Mounted
pub mod Branches
pub mod Walk
pub mod Path
pub mod Story
pub mod Missing

-- What the kernel answers in one mount: an address, an option and a file's inode number are read by
-- the functions, and the rest is whether a call has memory or the errno that it gives. `fh` is what
-- the memory for the root's handle holds before.
pub record MountEnv : Type 0 where
  pub kzalloc : Bool
  pub kstrndup : Bool
  pub in4_pton : List ℕ → ℤ
  pub match_token : List ℕ → Token
  pub rpc_create : ℤ
  pub kmalloc : Bool
  pub fh : VsnfsFh
  pub sget : ℤ
  pub iget : ℕ → Option ClientInode
  pub d_alloc_root : Bool
  pub d_obtain_alias : ℤ

-- A call of the server for the root's handle.
abbrev pub RootCall : Type 0 → Type 0
RootCall State = State → GetrootArgs → VsnfsFh → Run ((ℤ × VsnfsFh) × State)

-- Which table of operations a superblock has.
pub data SuperOps : Type 0 where
  default_op client_sops : SuperOps

-- The fields that `vsnfs_fill_super` and `vsnfs_set_super` set, but for `s_id` and `s_maxbytes`, and
-- MS_ACTIVE.
pub record Superblock : Type 0 where
  pub s_blocksize_bits : ℕ
  pub s_blocksize : ℕ
  pub s_magic : ℕ
  pub s_op : SuperOps
  pub s_fs_info : VsnfsServer
  pub s_root : Bool
  pub active : Bool

unfoldable pub vsnfs_fill_super : Superblock → Superblock
vsnfs_fill_super sb = record sb {
  s_blocksize_bits = 12;
  s_blocksize = 4096;
  s_magic = 0x7979;
  s_op = client_sops;
}

-- A new superblock: `sget` has no test for an old one.
abbrev pub new_super : VsnfsServer → Superblock
new_super server = record {
  s_blocksize_bits = 0;
  s_blocksize = 0;
  s_magic = 0;
  s_op = default_op;
  s_fs_info = server;
  s_root = false;
  active = false;
}

-- An inode, or an errno as a pointer.
pub data Root : Type 0 where
  root : ClientInode → Root
  err_root : ℤ → Root

-- What a mount leaves: the superblock with the inode of the mounted root, or an errno, and whether
-- the memory for the server's record is still there, which nothing points to any more.
pub data Outcome : Type 0 where
  mounted : Superblock → ClientInode → Outcome
  failed : ℤ → (lost : Bool) → Outcome

module _ {State : Type 0} (getroot : RootCall State) (state : State) (env : MountEnv) where
  -- The value and the server's record. A failure of the call is -VSNFSERR_REMOTE.
  unfoldable pub vsnfs_create_rpcclient : VsnfsServer → Run ((ℤ × VsnfsServer) × State)
  vsnfs_create_rpcclient server = elim server.mnt_path [
    | none ↦ oops null_pointer
    | some path ↦
        if is_neg env.rpc_create
        then done ((env.rpc_create, server), state)
        else if env.kmalloc
        then (do
          let connected : VsnfsServer = record server { cl_rpcclient = true }
          ((ret, fh), state') ← getroot state (record { path = path; len = length path }) env.fh
          done (
            if eqb ret (pos 0)
                then (pos 0, record connected { root_fh = fh })
                else (neg (code VsnfsStat.remote), connected),
            state',
          ))
        else done ((neg Constants.enomem, record server { cl_rpcclient = true }), state)
  ]

-- `sb->s_root` and the value.
unfoldable pub vsnfs_superblock_set_dummy_root : Bool → Superblock → ℤ × Superblock
vsnfs_superblock_set_dummy_root alloc sb =
    if sb.s_root
    then (pos 0, sb)
    else if alloc
    then (pos 0, record sb { s_root = true })
    else (neg Constants.enomem, sb)

-- The record of operations is always the client's own, and no field of the server's record here.
abbrev pub vsnfs_init_server :
    MountEnv
    → VsnfsServer
    → (dev_name : List ℕ) → (raw_data : List (List ℕ)) → Run (ℤ × VsnfsServer)
vsnfs_init_server env server dev_name raw_data =
    vsnfs_parse_mount_options env.kstrndup env.in4_pton env.match_token raw_data dev_name server

module _ (s : Strtoul) (e : Endian) (env : MountEnv) where
  unfoldable pub vsnfs_get_root : Superblock → VsnfsFh → Root × Superblock
  unfolding vsnfs_superblock_set_dummy_root
  vsnfs_get_root sb mntfh = elim (vsnfs_fhget s e env.iget mntfh) [
    | none ↦ (err_root (neg Constants.enomem), sb)
    | some inode ↦
        let (ret, sb') = vsnfs_superblock_set_dummy_root env.d_alloc_root sb in
        if eqb ret (pos 0)
        then (if is_neg env.d_obtain_alias
            then (err_root env.d_obtain_alias, sb')
            else (root inode, sb'))
        else (err_root ret, sb')
  ]

  -- After an error the dentry, which is an errno, is put.
  abbrev pub activate : Root × Superblock → Run Outcome
  activate (root inode, sb) = done (mounted (record sb { active = true }) inode)
  activate (err_root err, sb) = oops out_of_bounds

  -- From `sget` on.
  unfoldable pub vsnfs_mount_root : VsnfsServer → Run Outcome
  unfolding vsnfs_get_root vsnfs_fill_super
  vsnfs_mount_root server =
      if is_neg env.sget
      then done (failed env.sget false)
      else activate (vsnfs_get_root (vsnfs_fill_super (new_super server)) server.root_fh)

  -- The memory for the server's record is zeroed, and `blank` stands for it; IS_ERR does not see
  -- that there is none.
  unfoldable pub vsnfs_get_sb :
      {State : Type 0}
      → RootCall State
      → State
      → (blank : VsnfsServer) → (dev_name : List ℕ) → (options : List (List ℕ))
      → Run (Outcome × State)
  unfolding vsnfs_create_rpcclient vsnfs_mount_root
  vsnfs_get_sb getroot state blank dev_name options =
      if env.kzalloc
      then (do
        (ret, server) ← vsnfs_init_server env blank dev_name options
        if is_neg ret then done (failed ret true, state) else (do
          ((ret', server'), state') ← vsnfs_create_rpcclient getroot state env server
          if is_neg ret'
              then done (failed ret' true, state')
              else (do outcome ← vsnfs_mount_root server'; done (outcome, state'))))
      else oops null_pointer

abbrev vsnfs_sb : Superblock → VsnfsServer
vsnfs_sb sb = sb.s_fs_info

-- Whether the tasks of the RPC client are killed.
unfoldable vsnfs_umount_begin : Superblock → Bool
vsnfs_umount_begin sb = (vsnfs_sb sb).cl_rpcclient

-- What stays allocated of a mount.
record Held : Type 0 where
  server : Bool
  rpc_client : Bool
  mnt_path : Bool

abbrev is_there : Option (List ℕ) → Bool
is_there none = false
is_there (some path) = true

-- The end of a mount frees the server's record, and nothing that it points to.
unfoldable vsnfs_kill_sb : Superblock → Held
vsnfs_kill_sb sb = record {
  server = false;
  rpc_client = (vsnfs_sb sb).cl_rpcclient;
  mnt_path = is_there (vsnfs_sb sb).mnt_path;
}

-- The entries of `vsnfs_sops`; the kernel makes and frees the inodes.
record SuperOperations : Type 0 where
  alloc_inode : Option ClientInode
  destroy_inode : Option ClientInode
  write_inode : Option ℤ
  clear_inode : Option (ClientInode → ClientInode)
  umount_begin : Option (Superblock → Bool)

abbrev vsnfs_clear_inode : ClientInode → ClientInode
vsnfs_clear_inode inode = inode

abbrev vsnfs_sops : SuperOperations
vsnfs_sops = record {
  alloc_inode = none;
  destroy_inode = none;
  write_inode = some vsnfs_write_inode;
  clear_inode = some vsnfs_clear_inode;
  umount_begin = some vsnfs_umount_begin;
}

-- What VSNFSClientInit registers, over a kernel and a server.
record FileSystemType (State : Type 0) : Type 0 where
  name : List ℕ
  get_sb :
      RootCall State
      → State
      → VsnfsServer
      → (dev_name : List ℕ) → (options : List (List ℕ)) → Run (Outcome × State)
  kill_sb : Superblock → Held

abbrev vsnfs_type : {State : Type 0} → Strtoul → Endian → MountEnv → FileSystemType State
vsnfs_type s e env = record {
  name = b'v' ∷ b's' ∷ b'n' ∷ b'f' ∷ b's' ∷ [];
  get_sb = vsnfs_get_sb s e env;
  kill_sb = vsnfs_kill_sb;
}
