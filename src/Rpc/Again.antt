-- ===== src/Rpc/Again.antt =====
-- A request that arrives a second time at the server's dispatch (server/vsnfssvc.c), as the RPC layer's
-- retransmission makes it: no procedure's answers are cached (RC_NOCACHE in server/vsnfsproc.c).
use vsnfs.Base.{
  ℕ, ◌≡◌, refl, sym, subst, ap, ◌∙◌, List, [], ◌++◌, Option, ◌==◌, Bool-cases, Option-cases, inl,
  inr, Endian, Run, done, >>=-eq-done, done-injective,
}
use vsnfs.Protocol.{VsnfsFh}
use vsnfs.Kernel.{Sunrpc, Strtoul}
use vsnfs.Vfs.{Vfs}
use vsnfs.ClientXdr.{RpcRqst, Proc, null, getroot, lookup, readdir, read}
use vsnfs.ServerXdr.{SvcRqst, ReaddirRes}
use vsnfs.Server.{Table, Reply}
use vsnfs.Server.Again.{vsnfsd_proc_lookup-again, vsnfsd_proc_getroot-again}
use vsnfs.Server.Files.{start_res}
use vsnfs.Svc.{SvcProcedure, Dispatched, dispatch_call, vsnfsd_dispatch}
use vsnfs.Svc.Procedures.{
  parts, null_procedure, getroot_procedure, lookup_procedure, readdir_procedure, read_procedure,
}
use vsnfs.Wire.Args.{received}
use vsnfs.Rpc.{Answer}
use vsnfs.Rpc.Serve.{Surroundings, serve, serve_by, through}
use vsnfs.Rpc.Session.{readdir-keeps, read-keeps}

-- A procedure that answers a request in the same way once more, with the state it left.
abbrev Repeats : {Args Resp : Type 0} → SvcProcedure Args Resp Table → Type 0
Repeats {Args} {Resp} proc =
    (t t' : Table) (args : Args) (resp resp' : Resp) (status : ℕ)
    → proc.pc_func t args resp ≡ done (t', status, resp')
    → proc.pc_func t' args resp ≡ done (t', status, resp')

module _ {Args Resp : Type 0} (e : Endian) (proc : SvcProcedure Args Resp Table)
    (repeats : Repeats proc) where
  dispatch_call-again :
      (t : Table) (rqstp : SvcRqst) (resp : Resp) (args : Args) (d : Dispatched Table)
      → dispatch_call e proc rqstp t resp args ≡ done d
      → dispatch_call e proc rqstp d.state resp args ≡ done d
  unfolding dispatch_call
  dispatch_call-again t rqstp resp args d ran =
      let ((t', status, resp'), called, last) = >>=-eq-done (proc.pc_func t args resp) _ ran in
      let kept : t' ≡ d.state = elim (Bool-cases (status == 0)) [
        | inl good ↦ ap (λ (q : Dispatched Table). q.state) (done-injective (rw good at last))
        | inr bad ↦ ap (λ (q : Dispatched Table). q.state) (done-injective (rw bad at last))
      ] in
      subst (λ (u : Table). dispatch_call e proc rqstp u resp args ≡ done d) kept
        (rw (repeats t t' args resp resp' status called) last)

  vsnfsd_dispatch-again :
      (t : Table) (rqstp : SvcRqst) (base : List ℕ) (resp : Resp) (d : Dispatched Table)
      → vsnfsd_dispatch e proc rqstp base t resp ≡ done d
      → vsnfsd_dispatch e proc rqstp base d.state resp ≡ done d
  unfolding vsnfsd_dispatch
  vsnfsd_dispatch-again t rqstp base resp d ran =
      let ((args, rqstp'), decoded, rest) = >>=-eq-done (proc.pc_decode rqstp base) _ ran in
      elim (Option-cases args) [
        | inl refused ↦
            subst
              (λ (q : Dispatched Table). vsnfsd_dispatch e proc rqstp base q.state resp ≡ done q)
              (done-injective (rw refused at rest))
              (rw (decoded ∙ ap (λ (o : Option Args). done (o, rqstp')) refused) refl)
        | inr (a, made) ↦
            rw (decoded ∙ ap (λ (o : Option Args). done (o, rqstp')) made)
              (dispatch_call-again t rqstp' resp a d (rw made at rest))
      ]

parts-Repeats :
    (run : Table → Run Reply)
    → ((t : Table) (r : Reply) → run t ≡ done r → run r.table ≡ done r)
    → (t t' : Table) (status : ℕ) (resp : VsnfsFh) → parts (run t) ≡ done (t', status, resp)
    → parts (run t') ≡ done (t', status, resp)
parts-Repeats run again t t' status resp ran =
    let (r, called, last) = >>=-eq-done (run t) _ ran in
    subst (λ (u : Table). parts (run u) ≡ done (t', status, resp))
      (ap (λ (q : Table × ℕ × VsnfsFh). q.0) (done-injective last)) (rw (again t r called) last)

module _ {File : Type 0} (x : Sunrpc) (s : Strtoul) (vfs : Vfs File ReaddirRes) (e : Endian)
    (env : Surroundings) where
  through-again :
      {Args Resp : Type 0} (carry : SvcRqst → Answer) (proc : SvcProcedure Args Resp Table)
      → Repeats proc
      → (t t' : Table) (sent : RpcRqst) (resp : Resp) (answered : Answer)
      → through x s vfs e env carry proc t sent resp ≡ done (answered, t')
      → through x s vfs e env carry proc t' sent resp ≡ done (answered, t')
  through-again carry proc repeats t t' sent resp answered ran =
      let (d, dispatched, last) =
        >>=-eq-done
          (vsnfsd_dispatch e proc (received env.rqstp sent) (sent.svec ++ env.stale) t resp) _
          ran in
      subst (λ (u : Table). through x s vfs e env carry proc u sent resp ≡ done (answered, t'))
        (ap (λ (q : Answer × Table). q.1) (done-injective last))
        (rw
          (vsnfsd_dispatch-again e proc repeats t (received env.rqstp sent) (sent.svec ++ env.stale)
            resp d dispatched)
          last)

  -- A call that returned, sent again unchanged and served in the same surroundings, gets the same
  -- answer and leaves the server's table as it is, whatever the procedure, the bytes of the request
  -- and the errors on the way are.
  pub serve-again :
      (proc : Proc) (t t' : Table) (sent : RpcRqst) (answered : Answer)
      → serve x s vfs e env t proc sent ≡ done (answered, t')
      → serve x s vfs e env t' proc sent ≡ done (answered, t')
  unfolding serve serve_by
  serve-again null t t' sent answered ran =
      let proc = null_procedure x s vfs e in
      through-again _ proc
        (λ t t' args resp resp' status h.
          subst (λ (u : Table). proc.pc_func u args resp ≡ done (t', status, resp'))
            (ap (λ (q : Table × ℕ × ℕ). q.0) (done-injective h)) h)
        t t' sent 0 answered ran
  serve-again getroot t t' sent answered ran =
      through-again _ (getroot_procedure x s vfs e env.alloc)
        (λ t t' args resp resp' status h.
          parts-Repeats _ (λ u r. vsnfsd_proc_getroot-again s vfs e env.alloc u args resp r) t t'
            status resp' h)
        t t' sent env.resp answered ran
  serve-again lookup t t' sent answered ran =
      through-again _ (lookup_procedure x s vfs e env.alloc)
        (λ t t' args resp resp' status h.
          parts-Repeats _ (λ u r. vsnfsd_proc_lookup-again s vfs e env.alloc u args resp r) t t'
            status resp' h)
        t t' sent env.resp answered ran
  serve-again readdir t t' sent answered ran =
      let proc = readdir_procedure x s vfs e env.file_path env.stack in
      through-again _ proc
        (λ t t' args resp resp' status h.
          subst (λ (u : Table). proc.pc_func u args resp ≡ done (t', status, resp'))
            (sym (readdir-keeps x s vfs e env.file_path env.stack t t' args resp resp' status h)) h)
        t t' sent (start_res s vfs e 0) answered ran
  serve-again read t t' sent answered ran =
      let proc = read_procedure x s vfs e env.file_path env.position env.head_at in
      through-again _ proc
        (λ t t' args resp resp' status h.
          subst (λ (u : Table). proc.pc_func u args resp ≡ done (t', status, resp'))
            (sym (
              read-keeps x s vfs e env.file_path env.position env.head_at t t' args resp resp'
                status h))
            h)
        t t' sent ([], 0) answered ran
