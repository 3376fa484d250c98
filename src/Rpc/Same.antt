-- ===== src/Rpc/Same.antt =====
-- Calls (server/vsnfssvc.c, server/vsnfsproc.c) on two lookup tables that name the same paths.
use vsnfs.Base.{
  ℕ, ◌≡◌, refl, List, [], ◌++◌, ◌==◌, Bool-cases, Option-cases, inl, inr, Endian, Run, done, oops,
  ◌>>=◌, Agree, Agree->>=, Agree-then,
}
use vsnfs.Kernel.{Sunrpc, Strtoul}
use vsnfs.Vfs.{Vfs}
use vsnfs.ClientXdr.{RpcRqst, Proc, null, getroot, lookup, readdir, read}
use vsnfs.ServerXdr.{SvcRqst, ReaddirRes}
use vsnfs.Server.{Table, Reply}
use vsnfs.Server.Same.{Same, SameReply, vsnfsd_proc_lookup-Same, vsnfsd_proc_getroot-Same}
use vsnfs.Server.Same.Files.{vsnfsd_proc_readdir-Same, vsnfsd_proc_read-Same}
use vsnfs.Server.Files.{start_res}
use vsnfs.Wire.Args.{received}
use vsnfs.Svc.{SvcProcedure, Dispatched, dispatch_call, vsnfsd_dispatch}
use vsnfs.Svc.Procedures.{
  parts, null_procedure, getroot_procedure, lookup_procedure, readdir_procedure, read_procedure,
}
use vsnfs.Rpc.{Answer}
use vsnfs.Rpc.Serve.{Surroundings, serve, serve_by, through}

abbrev SameCalled : {Resp : Type 0} → Table × ℕ × Resp → Table × ℕ × Resp → Type 0
SameCalled a b = Same a.0 b.0 × (a.1 ≡ b.1) × (a.2 ≡ b.2)

abbrev SameDispatched : Dispatched Table → Dispatched Table → Type 0
SameDispatched d d' = Same d.state d'.state × (d.statp ≡ d'.statp) × (d.rqstp ≡ d'.rqstp)

abbrev pub SameAnswer : Answer × Table → Answer × Table → Type 0
SameAnswer a b = Same a.1 b.1 × (a.0 ≡ b.0)

module _ {Args Resp : Type 0} (e : Endian) (proc : SvcProcedure Args Resp Table)
    (respects : (t t' : Table) (args : Args) (resp : Resp)
      → Same t t'
      → Agree SameCalled (proc.pc_func t args resp) (proc.pc_func t' args resp)) where
  dispatch_call-Same :
      (t t' : Table) (rqstp : SvcRqst) (resp : Resp) (args : Args)
      → Same t t'
      → Agree SameDispatched
          (dispatch_call e proc rqstp t resp args)
          (dispatch_call e proc rqstp t' resp args)
  unfolding dispatch_call
  dispatch_call-Same t t' rqstp resp args same =
      Agree->>= SameCalled SameDispatched (proc.pc_func t args resp) (proc.pc_func t' args resp) _ _
        (respects t t' args resp same)
        (λ (s, w, r) (s', w', r') (kept, is, is').
          rw (is, is')
            (elim (Bool-cases (w' == 0)) [
              | inl good ↦ rw good (kept, refl, refl)
              | inr bad ↦ rw bad (kept, refl, refl)
            ]))

  vsnfsd_dispatch-Same :
      (t t' : Table) (rqstp : SvcRqst) (base : List ℕ) (resp : Resp)
      → Same t t'
      → Agree SameDispatched
          (vsnfsd_dispatch e proc rqstp base t resp)
          (vsnfsd_dispatch e proc rqstp base t' resp)
  unfolding vsnfsd_dispatch
  vsnfsd_dispatch-Same t t' rqstp base resp same =
      Agree-then SameDispatched (proc.pc_decode rqstp base) _ _ (λ (args, rqstp').
        elim (Option-cases args) [
          | inl missing ↦ rw missing (same, refl, refl)
          | inr (a, made) ↦ rw made (dispatch_call-Same t t' rqstp' resp a same)
        ])

module _ {File : Type 0} (x : Sunrpc) (s : Strtoul) (vfs : Vfs File ReaddirRes) (e : Endian)
    (env : Surroundings) where
  through-Same :
      {Args Resp : Type 0} (carry : SvcRqst → Answer) (proc : SvcProcedure Args Resp Table)
      → ((t t' : Table) (args : Args) (resp : Resp)
          → Same t t'
          → Agree SameCalled (proc.pc_func t args resp) (proc.pc_func t' args resp))
      → (t t' : Table) (sent : RpcRqst) (resp : Resp) → Same t t'
      → Agree SameAnswer
          (through x s vfs e env carry proc t sent resp)
          (through x s vfs e env carry proc t' sent resp)
  through-Same carry proc respects t t' sent resp same =
      let rqstp = received env.rqstp sent in
      Agree->>= SameDispatched SameAnswer
        (vsnfsd_dispatch e proc rqstp (sent.svec ++ env.stale) t resp)
        (vsnfsd_dispatch e proc rqstp (sent.svec ++ env.stale) t' resp) _ _
        (vsnfsd_dispatch-Same e proc respects t t' rqstp (sent.svec ++ env.stale) resp same)
        (λ d d' (kept, accept, left). (kept, rw (accept, left) refl))

  parts-Same : (r r' : Run Reply) → Agree SameReply r r' → Agree SameCalled (parts r) (parts r')
  parts-Same r r' same =
      Agree->>= SameReply SameCalled r r' _ _ same (λ a b (kept, is, is'). (kept, is, is'))

  -- The procedures that do not touch the table.
  untouching-Same :
      {Resp A : Type 0} (m m' : Run A) (status : A → ℕ) (resp : A → Resp) (t t' : Table)
      → m ≡ m'
      → Same t t'
      → Agree SameCalled
          (do a ← m; done (t, status a, resp a))
          (do a ← m'; done (t', status a, resp a))
  untouching-Same m (done a) status resp t t' is same = rw is (same, refl, refl)
  untouching-Same m (oops f) status resp t t' is same = rw is refl

  -- A call on either of two tables that name the same paths ends with the same fault, or with the
  -- same answer and again with tables that name the same paths.
  pub serve-Same :
      (proc : Proc) (t t' : Table) (sent : RpcRqst)
      → Same t t'
      → Agree SameAnswer (serve x s vfs e env t proc sent) (serve x s vfs e env t' proc sent)
  unfolding serve serve_by
  serve-Same null t t' sent same =
      through-Same _ (null_procedure x s vfs e) (λ t t' args resp alike. (alike, refl, refl)) t t'
        sent 0 same
  serve-Same getroot t t' sent same =
      through-Same _ (getroot_procedure x s vfs e env.alloc)
        (λ t t' args resp alike.
          parts-Same _ _ (vsnfsd_proc_getroot-Same s vfs e env.alloc t t' args resp alike))
        t t' sent env.resp same
  serve-Same lookup t t' sent same =
      through-Same _ (lookup_procedure x s vfs e env.alloc)
        (λ t t' args resp alike.
          parts-Same _ _ (vsnfsd_proc_lookup-Same s vfs e env.alloc t t' args resp alike))
        t t' sent env.resp same
  serve-Same readdir t t' sent same =
      through-Same _ (readdir_procedure x s vfs e env.file_path env.stack)
        (λ t t' args resp alike.
          untouching-Same _ _ _ _ t t'
            (vsnfsd_proc_readdir-Same x s vfs e env.stack env.file_path t t' args alike) alike)
        t t' sent (start_res s vfs e 0) same
  serve-Same read t t' sent same =
      through-Same _ (read_procedure x s vfs e env.file_path env.position env.head_at)
        (λ t t' args resp alike.
          untouching-Same _ _ _ _ t t'
            (vsnfsd_proc_read-Same x s vfs e env.file_path env.position t t' args alike) alike)
        t t' sent ([], 0) same
