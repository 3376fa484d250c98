-- ===== src/Callbacks.antt =====
-- The callbacks of vsnfsDir.c, vsnfsFile.c and vsnfsClient.c that do nothing, and the entry points of
-- the client's module (VSNFSClientInit and VSNFSClientCleanup in vsnfsClient.c, module.c) over what
-- the kernel's registration of a file system returns.
use vsnfs.Base.{◌+◌, Bool, ℤ, pos, neg, is_neg}
use vsnfs.Errno.Constants
use vsnfs.Client.{ClientInode}
pub mod Tables

abbrev pub vsnfs_opendir : ℤ
vsnfs_opendir = pos 0

abbrev pub vsnfs_create : ℤ
vsnfs_create = neg Constants.eopnotsupp

abbrev pub vsnfs_mkdir : ℤ
vsnfs_mkdir = neg Constants.eopnotsupp

abbrev pub vsnfs_rmdir : ℤ
vsnfs_rmdir = neg Constants.eopnotsupp

-- Nobody is refused anything.
abbrev pub vsnfs_permission : (mask : ℤ) → ℤ
vsnfs_permission mask = pos 0

abbrev pub vsnfs_lookup_revalidate : ℤ
vsnfs_lookup_revalidate = neg Constants.eopnotsupp

abbrev pub vsnfs_dentry_delete : ℤ
vsnfs_dentry_delete = neg Constants.eopnotsupp

-- The dentry's reference to its inode is put.
abbrev pub vsnfs_dentry_iput : ClientInode → ClientInode
vsnfs_dentry_iput inode = record inode { puts = inode.puts + 1 }

abbrev pub vsnfs_file_open : ℤ
vsnfs_file_open = neg Constants.eopnotsupp

abbrev pub vsnfs_file_read : ℤ
vsnfs_file_read = pos 0

abbrev pub vsnfs_file_write : ℤ
vsnfs_file_write = neg Constants.eopnotsupp

abbrev pub vsnfs_write_inode : ℤ
vsnfs_write_inode = neg Constants.eopnotsupp

-- The value is that of the registration, in both.
abbrev vsnfs_client_init : (register_filesystem : ℤ) → ℤ
vsnfs_client_init register_filesystem = register_filesystem

abbrev vsnfs_init : (register_filesystem : ℤ) → ℤ
vsnfs_init register_filesystem = vsnfs_client_init register_filesystem

abbrev vsnfs_client_cleanup : (unregister_filesystem : ℤ) → ℤ
vsnfs_client_cleanup unregister_filesystem = unregister_filesystem

-- Whether an error is reported.
abbrev vsnfs_cleanup : (unregister_filesystem : ℤ) → Bool
vsnfs_cleanup unregister_filesystem = is_neg (vsnfs_client_cleanup unregister_filesystem)
