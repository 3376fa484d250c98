-- ===== src/Tests/Svc.antt =====
-- The service: Svc.Daemon, Svc.Calls, Svc.Lockd, Svc.Layout.
use vsnfs.Base.{
  ℕ, suc, ◌-◌, ◌≤◌, ◌<◌, ◌≢◌, ◌⊎◌, ◌≡◌, refl, List, [], ◌∷◌, ◌++◌, some, true, ℤ, pos, neg, little,
  done, arith,
}
use vsnfs.Errno.Constants
use vsnfs.Handle.{handle_of, decimal}
use vsnfs.ClientXdr.{read, vsnfs_xdr_lookupargs, vsnfs_xdr_fh}
use vsnfs.ServerXdr.{ReaddirRes, has_nul_or_slash}
use vsnfs.Server.{Table}
use vsnfs.Server.Resolve.{plenty}
use vsnfs.Svc.Lockd.{freed_nodes, freed_paths, vsnfsd_last_thread-init_socks}
use vsnfs.Svc.{
  LastThread, SockCalls, vsnfsd_init_socks, vsnfsd_last_thread, untouched, vsnfsd_loop,
  vsnfsd_dispatch, Dispatched,
}
use vsnfs.Svc.Procedures.{lookup_procedure}
use vsnfs.Svc.Daemon.{served, vsnfsd_loop_lem}
use vsnfs.Svc.Calls.{lookup_call}
use vsnfs.Wire.Args.{blank, received}
use vsnfs.Svc.Layout.{ilp32, lp64, vs_xdrsize, pc_argsize, pc_ressize, pc_argsize-vs_xdrsize}
use vsnfs.Tests.Replies.{root_table, b_table, root_reply, b_reply, b_reply_lem}
use vsnfs.Tests.Instances.{sunrpc, strtoul, vfs, root_path, name_b, some_fh, blank_rqst}

abbrev refused_tcp : SockCalls
refused_tcp = record {
  udp = pos 0;
  udp_lockd = pos 0;
  tcp = pos 0;
  tcp_lockd = neg Constants.enomem;
}

-- A request, a timeout, an error twice, a request, a signal, and a request that is not served.
abbrev results : List ℤ
results =
    pos 40
    ∷ neg Constants.eagain
    ∷ neg Constants.eio
    ∷ neg Constants.eio
    ∷ pos 40
    ∷ neg Constants.eintr
    ∷ pos 40
    ∷ []

vsnfsd_loop_lem_example :
    (served (vsnfsd_loop (pos 0) results).0 ≡ 2) × ((vsnfsd_loop (pos 0) results).1 ≡ true)
vsnfsd_loop_lem_example = vsnfsd_loop_lem (pos 0) results

lookup_call_example :
    let sent =
      vsnfs_xdr_lookupargs sunrpc blank
        (record { fh = root_reply.resp; filename = name_b; len = 1 }) in
    (d : Dispatched Table) × (vsnfsd_dispatch little
        (lookup_procedure sunrpc strtoul (vfs {State = ReaddirRes}) little plenty)
        (received blank_rqst sent)
        (sent.svec ++ (9 ∷ []))
        root_table
        some_fh
      ≡ done d)
    × (d.statp ≡ untouched)
    × (d.state ≡ b_table)
    × (vsnfs_xdr_fh (d.rqstp.head ++ (9 ∷ [])) some_fh ≡ done (pos 0, b_reply.resp))
unfolding handle_of has_nul_or_slash decimal
lookup_call_example =
    lookup_call sunrpc strtoul (vfs {State = ReaddirRes}) little plenty blank_rqst refl root_table
      some_fh b_reply (omega arith) (refl, omega arith) (9 ∷ []) (9 ∷ []) some_fh root_reply.resp
      name_b (refl, omega arith) (omega arith) refl b_reply_lem

-- Another user holds a reference to `lockd`, which refuses the second socket.
vsnfsd_last_thread-init_socks_example :
    (end : LastThread ℕ) × (vsnfsd_last_thread
        (λ n. n - 1)
        root_table
        (vsnfsd_init_socks 0 refused_tcp).socks
        2
      ≡ done end)
    × (end.table ≡ some [])
    × (freed_nodes end.freed ≡ 2 ∷ [])
    × (freed_paths end.freed ≡ root_path ∷ [])
    × (end.lockd ≡ 0)
unfolding vsnfsd_init_socks
vsnfsd_last_thread-init_socks_example =
    vsnfsd_last_thread-init_socks suc (λ n. n - 1) (λ n. omega arith) refused_tcp
      (record { ino = 2; path = root_path } ∷ []) 1

pc_argsize-vs_xdrsize_example :
    (pc_ressize ilp32 read ≤ vs_xdrsize ilp32)
    × (((ilp32 ≡ ilp32) × (read ≡ read) × (vs_xdrsize ilp32 < pc_argsize ilp32 read))
        ⊎ (((ilp32 ≡ lp64) ⊎ (read ≢ read)) × (pc_argsize ilp32 read ≤ vs_xdrsize ilp32)))
pc_argsize-vs_xdrsize_example = pc_argsize-vs_xdrsize ilp32 read
