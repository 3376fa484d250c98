-- ===== src/Rpc/Session.antt =====
-- A session of clients with one server: any calls through `serve`, one after the other.
use vsnfs.Base.{
  ℕ, ◌≡◌, ap, List, [], ◌++◌, none, Bool, Endian, done, >>=-eq-done, done-injective, ◌∙◌, subst,
  sym,
}
use vsnfs.Kernel.{Sunrpc, Strtoul}
use vsnfs.Vfs.{Vfs}
use vsnfs.ClientXdr.{RpcRqst, Proc, null, getroot, lookup, readdir, read}
use vsnfs.ServerXdr.{SvcRqst, ReaddirRes, ReaddirArgs, ReadArgs}
use vsnfs.Server.{Table}
use vsnfs.Server.Files.{start_res, vsnfsd_proc_readdir, vsnfsd_proc_read}
use vsnfs.Server.Table.{IsTableState}
use vsnfs.Server.Reach.{Reach, start, Reach-IsTableState}
use vsnfs.Server.Spec.{view}
use vsnfs.Server.Honest.{IsHonest, Reach-IsHonest}
use vsnfs.Wire.Args.{received}
use vsnfs.Svc.{SvcProcedure, Dispatched, vsnfsd_dispatch}
use vsnfs.Svc.Procedures.{
  null_procedure, getroot_procedure, lookup_procedure, readdir_procedure, read_procedure,
}
use vsnfs.Rpc.{Answer}
use vsnfs.Rpc.Serve.{Surroundings, serve, serve_by, through}
use vsnfs.Rpc.Reach.{dispatch-getroot-Reach, dispatch-lookup-Reach, dispatch_keeps}

module _ {File : Type 0} (x : Sunrpc) (s : Strtoul) (vfs : Vfs File ReaddirRes) (e : Endian) where
  pub through-dispatch :
      {Args Resp : Type 0} (env : Surroundings) (carry : SvcRqst → Answer)
      (proc : SvcProcedure Args Resp Table) (table table' : Table) (sent : RpcRqst) (resp : Resp)
      (answer : Answer)
      → through x s vfs e env carry proc table sent resp ≡ done (answer, table')
      → (d : Dispatched Table) × (vsnfsd_dispatch e proc
            (received env.rqstp sent)
            (sent.svec ++ env.stale)
            table
            resp
          ≡ done d)
        × (d.state ≡ table')
  through-dispatch env carry proc table table' sent resp answer ran =
      let (d, dispatched, last) =
        >>=-eq-done
          (vsnfsd_dispatch e proc (received env.rqstp sent) (sent.svec ++ env.stale) table resp) _
          ran in
      (d, dispatched, ap (λ (q : Answer × Table). q.1) (done-injective last))

  pub readdir-keeps :
      (alloc : Bool) (stack : List ℕ) (table table' : Table) (args : ReaddirArgs)
      (resp resp' : ReaddirRes) (status : ℕ)
      → (readdir_procedure x s vfs e alloc stack).pc_func table args resp
        ≡ done (table', status, resp')
      → table' ≡ table
  readdir-keeps alloc stack table table' args resp resp' status ran =
      let (answer, read_all, last) =
        >>=-eq-done (vsnfsd_proc_readdir s vfs e x stack alloc table args) _ ran in
      sym (ap (λ (q : Table × ℕ × ReaddirRes). q.0) (done-injective last))

  pub read-keeps :
      (alloc : Bool) (position at : ℕ) (table table' : Table) (args : ReadArgs)
      (resp resp' : List ℕ × ℕ) (status : ℕ)
      → (read_procedure x s vfs e alloc position at).pc_func table args resp
        ≡ done (table', status, resp')
      → table' ≡ table
  read-keeps alloc position at table table' args resp resp' status ran =
      let (answer, read_all, last) =
        >>=-eq-done (vsnfsd_proc_read s vfs e alloc position table args) _ ran in
      sym (ap (λ (q : Table × ℕ × (List ℕ × ℕ)). q.0) (done-injective last))

  serve-Reach :
      (env : Surroundings) (proc : Proc) (table table' : Table) (sent : RpcRqst) (answer : Answer)
      → serve x s vfs e env table proc sent ≡ done (answer, table')
      → Reach s vfs e table
      → Reach s vfs e table'
  unfolding serve serve_by
  serve-Reach env getroot table table' sent answer ran reached =
      let (d, dispatched, is) =
        through-dispatch env _ (getroot_procedure x s vfs e env.alloc) table table' sent env.resp
          answer ran in
      subst (Reach s vfs e) is (
        dispatch-getroot-Reach x s vfs e env.alloc (received env.rqstp sent)
          (sent.svec ++ env.stale) table env.resp d reached dispatched)
  serve-Reach env lookup table table' sent answer ran reached =
      let (d, dispatched, is) =
        through-dispatch env _ (lookup_procedure x s vfs e env.alloc) table table' sent env.resp
          answer ran in
      subst (Reach s vfs e) is (
        dispatch-lookup-Reach x s vfs e env.alloc (received env.rqstp sent) (sent.svec ++ env.stale)
          table env.resp d reached dispatched)
  serve-Reach env null table table' sent answer ran reached =
      let (d, dispatched, is) =
        through-dispatch env _ (null_procedure x s vfs e) table table' sent 0 answer ran in
      subst (Reach s vfs e)
        (sym (
            dispatch_keeps e (null_procedure x s vfs e) (λ t t' args resp resp' status h. cc)
              (received env.rqstp sent) (sent.svec ++ env.stale) table 0 d dispatched)
          ∙ is)
        reached
  serve-Reach env readdir table table' sent answer ran reached =
      let proc = readdir_procedure x s vfs e env.file_path env.stack in
      let (d, dispatched, is) =
        through-dispatch env _ proc table table' sent (start_res s vfs e 0) answer ran in
      subst (Reach s vfs e)
        (sym (
            dispatch_keeps e proc (readdir-keeps env.file_path env.stack) (received env.rqstp sent)
              (sent.svec ++ env.stale) table (start_res s vfs e 0) d dispatched)
          ∙ is)
        reached
  serve-Reach env read table table' sent answer ran reached =
      let proc = read_procedure x s vfs e env.file_path env.position env.head_at in
      let (d, dispatched, is) = through-dispatch env _ proc table table' sent ([], 0) answer ran in
      subst (Reach s vfs e)
        (sym (
            dispatch_keeps e proc (read-keeps env.file_path env.position env.head_at)
              (received env.rqstp sent) (sent.svec ++ env.stale) table ([], 0) d dispatched)
          ∙ is)
        reached

  -- The tables of a server that was started and then got calls, each of which returned.
  pub data Session : Table → Type 0 where
    opened : Session none
    called :
        (env : Surroundings) (proc : Proc) {table table' : Table} (sent : RpcRqst) (answer : Answer)
        → Session table
        → serve x s vfs e env table proc sent ≡ done (answer, table')
        → Session table'

  Session-Reach : {t : Table} → Session t → Reach s vfs e t
  Session-Reach opened = start
  Session-Reach {t} (called env proc {table} sent answer before ran) =
      serve-Reach env proc table t sent answer ran (Session-Reach before)

  -- After any calls of any procedures that return, whatever bytes the clients send and whatever fails in the
  -- server, in the table each inode number has one node, and each path is a C string of 1 to
  -- VSNFS_MAXPATHLEN + 1 bytes.
  pub Session-IsTableState : {t : Table} → Session t → IsTableState t
  Session-IsTableState session = Reach-IsTableState s vfs e (Session-Reach session)

  -- After any calls of any procedures that return, whatever bytes the clients send and whatever fails
  -- in the server, over a file system that does not change: each path that the table has for an inode
  -- number is one under which `path_lookup` finds an inode of that number, or such a path with a
  -- slash behind it for a directory.
  pub Session-IsHonest : {t : Table} → Session t → IsHonest vfs (view t)
  Session-IsHonest session = Reach-IsHonest s vfs e (Session-Reach session)
