-- ===== src/Tests/Super.antt =====
-- A mount: Super.Mounted, Super.Branches.
use vsnfs.Base.{
  ℕ, ◌≡◌, refl, [], ◌∷◌, ◌++◌, none, some, true, ◌==◌, if◌then◌else◌, pos, neg, little, done, arith,
}
use vsnfs.Handle.{handle_of, decimal}
use vsnfs.Vfs.{Inode, regular, directory}
use vsnfs.ServerXdr.{has_nul}
use vsnfs.Server.Lookup.{fh_for}
use vsnfs.Client.Lookup.{mirror}
use vsnfs.Mount.{VsnfsServer, opt_err, vsnfs_parse_mount_options}
use vsnfs.Rpc.{vsnfs_proc_getroot}
use vsnfs.Rpc.Serve.{serve}
use vsnfs.Super.{MountEnv, failed, mounted, vsnfs_get_sb}
use vsnfs.Super.Mounted.{active_super, vsnfs_get_sb-rpc}
use vsnfs.Super.Branches.{IsOutcome, vsnfs_get_sb-IsOutcome}
use vsnfs.Tests.Instances.{sunrpc, strtoul, vfs, root_path, some_fh, surroundings}
use vsnfs.Tests.Replies.{root_table, root_reply, root_reply_lem}
use vsnfs.Tests.Mount.{blank_server, short_name}
use vsnfs.Tests.Client.{new_inode}

abbrev inode_a : Inode
inode_a = record { i_ino = 2; kind = directory }

-- A kernel that refuses nothing, with a cache that has room for "/a/" alone.
abbrev pub willing : MountEnv
willing = record {
  kzalloc = true;
  kstrndup = true;
  in4_pton = λ text. pos 1;
  match_token = λ text. opt_err;
  rpc_create = pos 0;
  kmalloc = true;
  fh = some_fh;
  sget = pos 0;
  iget = λ ino. if ino == 2 then some new_inode else none;
  d_alloc_root = true;
  d_obtain_alias = pos 0;
}

vsnfs_get_sb-rpc_example :
    (server : VsnfsServer) × (server.ip_addr ≡ short_name)
    × (server.mnt_path ≡ some root_path)
    × (server.root_fh ≡ fh_for some_fh inode_a)
    × (vsnfs_get_sb strtoul little willing
          (vsnfs_proc_getroot sunrpc (serve sunrpc strtoul vfs little surroundings))
          none
          blank_server
          (short_name ++ b':' ∷ root_path)
          []
        ≡ done (
          mounted (active_super server) (mirror (fh_for some_fh inode_a) inode_a new_inode),
          root_table,
        ))
unfolding handle_of decimal has_nul
vsnfs_get_sb-rpc_example =
    vsnfs_get_sb-rpc sunrpc strtoul vfs little surroundings refl refl none willing blank_server []
      short_name root_path inode_a new_inode root_reply (refl, refl, refl, refl)
      (refl, refl, refl, refl) refl (omega arith) (omega arith) refl root_reply_lem refl refl
      (omega arith) (λ h. cc) refl refl

-- A server that does not answer.
vsnfs_get_sb-IsOutcome_example :
    IsOutcome strtoul little willing
      (λ (state : ℕ) args fh. done ((neg 5, fh), state))
      0
      blank_server
      (short_name ++ b':' ∷ root_path)
      []
      (failed (neg 71) true)
      0
unfolding vsnfs_get_sb vsnfs_parse_mount_options
vsnfs_get_sb-IsOutcome_example =
    vsnfs_get_sb-IsOutcome strtoul little willing (λ (state : ℕ) args fh. done ((neg 5, fh), state))
      0 0 blank_server (short_name ++ b':' ∷ root_path) [] (failed (neg 71) true) refl

abbrev inode_b : Inode
inode_b = record { i_ino = 12; kind = regular }
