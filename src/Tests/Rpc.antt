-- ===== src/Tests/Rpc.antt =====
-- Calls through the RPC layer: Rpc.Readdir, Rpc.Read, Rpc.Refused, Rpc.Session, Rpc.Sizes, Rpc.Again.
use vsnfs.Base.{
  ℕ, ◌≡◌, refl, List, [], ◌∷◌, true, pos, little, none, Option, some, neg, be32, get_be32, store32,
  ◌++◌, ◌*◌, ◌≤◌, ◌⊎◌, length, done, arith,
}
use vsnfs.Handle.{handle_of, decimal}
use vsnfs.Kernel.{page_size}
use vsnfs.Dir.{Filldir, Left, vsnfs_readdir}
use vsnfs.Readdir.Loop.{deliver}
use vsnfs.Wire.Args.{blank}
use vsnfs.ClientXdr.{RpcRqst, getroot, null, replen, vsnfs_xdr_getrootargs}
use vsnfs.ServerXdr.{
  ReaddirRes, has_nul_or_slash, vsnfssvc_decode_getrootargs, vsnfssvc_encode_fhandle,
}
use vsnfs.Svc.{vsnfsd_dispatch}
use vsnfs.Server.Getroot.{vsnfsd_proc_getroot}
use vsnfs.Server.Table.{IsTableState}
use vsnfs.Rpc.{Answer, reply, vsnfs_proc_readdir, vsnfs_proc_read, vsnfs_proc_lookup}
use vsnfs.Rpc.Read.{vsnfs_proc_read-rpc}
use vsnfs.Rpc.Refused.{vsnfs_lookup-garbage}
use vsnfs.Client.{ClientInode, err_dentry, vsnfs_lookup}
use vsnfs.Rpc.Again.{serve-again}
use vsnfs.Rpc.Session.{Session, opened, called, Session-IsTableState, Session-IsHonest}
use vsnfs.Rpc.Sizes.{leaves, pc_xdrressize, serve-pc_xdrressize}
use vsnfs.Server.Honest.{IsHonest}
use vsnfs.Server.Spec.{view}
use vsnfs.Rpc.Serve.{serve, serve_by}
use vsnfs.Rpc.Readdir.{vsnfs_readdir-rpc}
use vsnfs.Tests.Instances.{root_path, sunrpc, strtoul, vfs, surroundings, dirent_b, roomy, page_hi}
use vsnfs.Tests.Readdir.{note_entry, blank_entry, event_b, opened_root}
use vsnfs.Tests.Replies.{root_table, root_reply}

vsnfs_readdir-rpc_example :
    (page : List ℕ) × (left : Left (List Filldir)) × (vsnfs_proc_readdir sunrpc
        (serve sunrpc strtoul vfs little surroundings)
        root_table
        8
        root_reply.resp
        []
        page_size
      ≡ done ((pos 0, page), root_table))
    × (vsnfs_readdir sunrpc note_entry true (pos 0, page) 0 [] blank_entry ≡ done left)
    × (left.user ≡ event_b ∷ [])
    × (left.res ≡ pos 0)
unfolding deliver handle_of decimal
vsnfs_readdir-rpc_example =
    vsnfs_readdir-rpc sunrpc strtoul vfs little surroundings refl root_table root_reply.resp
      (refl, omega arith) 8 refl refl note_entry (λ u ev. refl) (dirent_b ∷ []) [] [] blank_entry
      opened_root refl ((omega arith, omega arith, omega arith), tt) (omega arith)

vsnfs_proc_read-rpc_example :
    vsnfs_proc_read sunrpc
      (serve sunrpc strtoul (vfs {State = ReaddirRes}) little roomy)
      root_table
      8
      100
      root_reply.resp
      []
      7
      4096
      5
    ≡ done ((pos 0, page_hi, 5), root_table)
unfolding handle_of decimal be32
vsnfs_proc_read-rpc_example =
    vsnfs_proc_read-rpc sunrpc strtoul (vfs {State = ReaddirRes}) little roomy refl root_table
      root_reply.resp (refl, omega arith) (dirent_b ∷ []) opened_root 8 7 4096 (omega arith)
      (b'h' ∷ b'i' ∷ []) 2 2 refl 100 [] 5 (omega arith)

-- The reply to a `getroot` of "/a/".
abbrev root_answer : Answer
root_answer = reply (be32 0 ++ (root_reply.resp.handle ++ (be32 2 ++ (9 ∷ [])))) (9 ∷ [])

abbrev getroot_sent : RpcRqst
getroot_sent = vsnfs_xdr_getrootargs sunrpc blank (record { path = root_path; len = 3 })

serve_root :
    serve sunrpc strtoul (vfs {State = ReaddirRes}) little surroundings none getroot getroot_sent
    ≡ done (root_answer, root_table)
unfolding serve serve_by vsnfsd_dispatch vsnfssvc_decode_getrootargs get_be32 vsnfs_xdr_getrootargs
    be32 vsnfsd_proc_getroot vsnfssvc_encode_fhandle store32 handle_of decimal
serve_root = refl

Session-root : Session sunrpc strtoul (vfs {State = ReaddirRes}) little root_table
Session-root = called surroundings getroot getroot_sent root_answer opened serve_root

Session-IsTableState_example : IsTableState root_table
Session-IsTableState_example =
    Session-IsTableState sunrpc strtoul (vfs {State = ReaddirRes}) little Session-root

Session-IsHonest_example : IsHonest (vfs {State = ReaddirRes}) (view root_table)
Session-IsHonest_example =
    Session-IsHonest sunrpc strtoul (vfs {State = ReaddirRes}) little Session-root

-- The reply's head as it leaves the server.
abbrev root_head : List ℕ
root_head = be32 0 ++ (root_reply.resp.handle ++ be32 2)

leaves_root :
    serve_by sunrpc strtoul
      (vfs {State = ReaddirRes})
      little
      surroundings
      leaves
      none
      getroot
      getroot_sent
    ≡ done (reply root_head [], root_table)
unfolding serve_by vsnfsd_dispatch vsnfssvc_decode_getrootargs get_be32 vsnfs_xdr_getrootargs be32
    vsnfsd_proc_getroot vsnfssvc_encode_fhandle store32 handle_of decimal
leaves_root = refl

serve-pc_xdrressize_example :
    (length root_head ≤ 4 * pc_xdrressize getroot)
    × ((getroot ≡ null) ⊎ (length root_head ≤ 4 * replen getroot))
serve-pc_xdrressize_example =
    serve-pc_xdrressize sunrpc strtoul (vfs {State = ReaddirRes}) little surroundings refl getroot
      none root_table getroot_sent root_head [] leaves_root

serve-again_example :
    serve sunrpc strtoul
      (vfs {State = ReaddirRes})
      little
      surroundings
      root_table
      getroot
      getroot_sent
    ≡ done (root_answer, root_table)
serve-again_example =
    serve-again sunrpc strtoul (vfs {State = ReaddirRes}) little surroundings getroot none
      root_table getroot_sent root_answer serve_root

vsnfs_lookup-garbage_example :
    vsnfs_lookup strtoul little
      (λ ino. none)
      (λ (made : Option ClientInode). made)
      (vsnfs_proc_lookup sunrpc
        (serve sunrpc strtoul (vfs {State = ReaddirRes}) little surroundings))
      root_table
      true
      (some root_reply.resp)
      root_path
      root_reply.resp
    ≡ done (err_dentry (neg 71), root_table)
unfolding handle_of decimal has_nul_or_slash
vsnfs_lookup-garbage_example =
    vsnfs_lookup-garbage sunrpc strtoul (vfs {State = ReaddirRes}) little surroundings root_table
      (λ ino. none) (λ (made : Option ClientInode). made) root_reply.resp root_reply.resp
      (refl, omega arith) root_path (omega arith) refl refl
