-- ===== src/Tests/Client.antt =====
-- The client: Client.Lookup, Callbacks.Tables.
use vsnfs.Base.{
  ℕ, ◌≡◌, ◌+◌, refl, Option, none, some, true, ◌==◌, if◌then◌else◌, neg, little, done, arith,
}
use vsnfs.Handle.{handle_of, decimal}
use vsnfs.Vfs.{Inode, regular}
use vsnfs.ServerXdr.{has_nul_or_slash}
use vsnfs.Server.Lookup.{fh_for}
use vsnfs.Client.{ClientInode, initial, dentry, err_dentry, vsnfs_lookup}
use vsnfs.Callbacks.Tables.{Operates, vsnfs_lookup-Operates}
use vsnfs.Client.Lookup.{vsnfs_lookup_lem}
use vsnfs.Tests.Instances.{surroundings, sunrpc, strtoul, vfs, name_b, some_fh}
use vsnfs.Rpc.{vsnfs_proc_lookup}
use vsnfs.Rpc.Serve.{serve}
use vsnfs.Tests.Replies.{b_table, root_table, root_reply, b_reply, b_reply_lem}

abbrev pub new_inode : ClientInode
new_inode = record {
  i_ino = 0;
  i_op = initial;
  i_fop = initial;
  i_mode = 0;
  i_size = 0;
  i_nlink = 1;
  i_private = none;
  is_new = true;
  puts = 0;
}

-- A cache that has room for "b" alone, and dentries that are what they are made of.
abbrev iget : ℕ → Option ClientInode
iget ino = if ino == 12 then some new_inode else none

abbrev inode_b : Inode
inode_b = record { i_ino = 12; kind = regular }

vsnfs_lookup_lem_example :
    vsnfs_lookup strtoul little iget
      (λ (made : Option ClientInode). made)
      (λ (state : ℕ) args fh. done ((neg 2, fh), state + 1))
      4
      true
      (some some_fh)
      name_b
      some_fh
    ≡ done (err_dentry (neg 71), 5)
vsnfs_lookup_lem_example =
    vsnfs_lookup_lem strtoul little iget (λ (made : Option ClientInode). made)
      (λ (state : ℕ) args fh. done ((neg 2, fh), state + 1)) 4 5 some_fh name_b some_fh some_fh
      (neg 2) refl

vsnfs_lookup-Operates_example :
    (made : ClientInode) × (vsnfs_lookup strtoul little iget
        (λ (made : Option ClientInode). made)
        (vsnfs_proc_lookup sunrpc (serve sunrpc strtoul vfs little surroundings))
        root_table
        true
        (some root_reply.resp)
        name_b
        some_fh
      ≡ done (dentry (some made), b_table))
    × (made.i_ino ≡ 12)
    × (made.i_private ≡ some (fh_for some_fh inode_b))
    × Operates ℕ sunrpc
        (neg 21)
        strtoul
        little
        iget
        (λ (made : Option ClientInode). made)
        (vsnfs_proc_lookup sunrpc (serve sunrpc strtoul vfs little surroundings))
        regular
        made
unfolding handle_of decimal has_nul_or_slash
vsnfs_lookup-Operates_example =
    vsnfs_lookup-Operates ℕ sunrpc strtoul vfs little surroundings refl refl root_table iget
      (λ (made : Option ClientInode). made) (neg 21) root_reply.resp some_fh name_b inode_b
      new_inode b_reply (refl, omega arith) (omega arith) refl b_reply_lem refl refl (omega arith)
      (λ h. cc) refl refl
