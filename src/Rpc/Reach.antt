-- ===== src/Rpc/Reach.antt =====
-- What clients can do to the server's table: every call through `serve`, whatever bytes it is made
-- of, with the decoders and the procedures of server/vsnfsxdr.c and server/vsnfsproc.c behind it.
use vsnfs.Base.{
  ℕ, ◌≤◌, ◌≡◌, ap, sym, ◌∙◌, ◌⊎◌, inl, inr, List, Option, none, some, false, Bool, Bool-cases,
  Option-cases, Endian, Run, done, >>=-eq-done, done-injective, arith, ◌==◌,
}
use vsnfs.Protocol.{VsnfsFh, maxpathlen}
use vsnfs.Kernel.{Sunrpc, Strtoul}
use vsnfs.Vfs.{Vfs}
use vsnfs.ServerXdr.{
  SvcRqst, ReaddirRes, GetrootArgs, has_nul, vsnfssvc_decode_getrootargs, decode_pathname,
  getroot_args, args_fit, refuse_if,
}
use vsnfs.Server.{Table, Kmalloc, Reply}
use vsnfs.Server.Reach.{Reach, lookup, getroot, next}
use vsnfs.Svc.{SvcProcedure, Dispatched, dispatch_call, vsnfsd_dispatch}
use vsnfs.Svc.Procedures.{leaving, parts, getroot_procedure, lookup_procedure}

module _ {Args Resp : Type 0} (e : Endian) (proc : SvcProcedure Args Resp Table) where
  dispatch_call-state :
      (rqstp : SvcRqst) (table : Table) (resp : Resp) (args : Args) (d : Dispatched Table)
      → dispatch_call e proc rqstp table resp args ≡ done d
      → (status : ℕ) × (resp' : Resp) × (proc.pc_func table args resp
          ≡ done (d.state, status, resp'))
  unfolding dispatch_call
  dispatch_call-state rqstp table resp args d ran =
      let ((table', status, resp'), called, last) =
        >>=-eq-done (proc.pc_func table args resp) _ ran in
      let kept : table' ≡ d.state = elim (Bool-cases (status == 0)) [
        | inl good ↦ ap (λ (q : Dispatched Table). q.state) (done-injective (rw good at last))
        | inr bad ↦ ap (λ (q : Dispatched Table). q.state) (done-injective (rw bad at last))
      ] in
      (status, resp', rw (← kept) called)

  -- A dispatch leaves the state alone, or the procedure ran on arguments that the decoder made.
  vsnfsd_dispatch-state :
      (rqstp : SvcRqst) (base : List ℕ) (table : Table) (resp : Resp) (d : Dispatched Table)
      → vsnfsd_dispatch e proc rqstp base table resp ≡ done d
      → (d.state ≡ table)
        ⊎ ((args : Args) × (rqstp' : SvcRqst) × (status : ℕ) × (resp' : Resp) × (proc.pc_decode
                rqstp base
              ≡ done (some args, rqstp'))
            × (proc.pc_func table args resp ≡ done (d.state, status, resp')))
  unfolding vsnfsd_dispatch
  vsnfsd_dispatch-state rqstp base table resp d ran =
      let ((args, rqstp'), decoded, rest) = >>=-eq-done (proc.pc_decode rqstp base) _ ran in
      elim (Option-cases args) [
        | inl refused ↦
            inl (sym (ap (λ (q : Dispatched Table). q.state) (done-injective (rw refused at rest))))
        | inr (a, made) ↦
            let (status, resp', called) =
              dispatch_call-state rqstp' table resp a d (rw made at rest) in
            inr (a, rqstp', status, resp', rw (← made) decoded, called)
      ]

refuse_if-eq-some :
    (bad : List ℕ → Bool) (raw : Option (List ℕ × ℕ × List ℕ)) (path : List ℕ) (len : ℕ)
    (rest : List ℕ)
    → refuse_if bad raw ≡ some (path, len, rest)
    → (raw ≡ some (path, len, rest)) × (bad path ≡ false)
refuse_if-eq-some bad none path len rest h = cc
refuse_if-eq-some bad (some (name, n, p)) path len rest h = elim (Bool-cases (bad name)) [
  | inl refused ↦ absurd (ground (arith, refused, h))
  | inr plain ↦ ground (arith, plain, h)
]

getroot_args-eq-some :
    (x : Sunrpc) (rqstp : SvcRqst) (base : List ℕ) (str : Option (List ℕ × ℕ × List ℕ))
    (args : GetrootArgs)
    → getroot_args x rqstp base str ≡ some args
    → (rest : List ℕ) × (str ≡ some (args.path, args.len, rest))
unfolding getroot_args
getroot_args-eq-some x rqstp base none args h = cc
getroot_args-eq-some x rqstp base (some (path, len, p)) args h =
    elim (Bool-cases (args_fit x rqstp base p)) [
      | inl fits ↦ (p, ground (arith, fits, h))
      | inr short ↦ absurd (ground (arith, short, h))
    ]

-- The path of a decoded `getroot` is a C string within the limit.
decode_getrootargs-fits :
    (x : Sunrpc) (rqstp : SvcRqst) (base : List ℕ) (args : GetrootArgs)
    → vsnfssvc_decode_getrootargs x rqstp base ≡ done (some args)
    → (args.len ≤ maxpathlen) × (has_nul args.path ≡ false)
unfolding vsnfssvc_decode_getrootargs decode_pathname
decode_getrootargs-fits x rqstp base args ran =
    let (str, decoded, last) = >>=-eq-done (decode_pathname x base) _ ran in
    let (rest, is) = getroot_args-eq-some x rqstp base str args (done-injective last) in
    let (raw, got, last') = >>=-eq-done (x.decode_string_inplace base maxpathlen) _ decoded in
    let (whole, plain) =
      refuse_if-eq-some has_nul raw args.path args.len rest (done-injective last' ∙ is) in
    (x.decode_string_bound base maxpathlen args.path args.len rest (got ∙ ap done whole), plain)

parts-eq-done :
    (run : Run Reply) (table : Table) (status : ℕ) (resp : VsnfsFh)
    → parts run ≡ done (table, status, resp)
    → (r : Reply) × (run ≡ done r) × (table ≡ r.table)
parts-eq-done run table status resp h =
    let (r, ran, last) = >>=-eq-done run _ h in
    (r, ran, sym (ap (λ (q : Table × ℕ × VsnfsFh). q.0) (done-injective last)))

leaving-eq-done :
    {A : Type 0} (decode : SvcRqst → List ℕ → Run (Option A)) (rqstp rqstp' : SvcRqst)
    (base : List ℕ) (args : Option A)
    → leaving decode rqstp base ≡ done (args, rqstp')
    → decode rqstp base ≡ done args
leaving-eq-done {A} decode rqstp rqstp' base args h =
    let (made, ran, last) = >>=-eq-done (decode rqstp base) _ h in
    ran ∙ ap (λ (q : Option A × SvcRqst). done q.0) (done-injective last)

module _ {File : Type 0} (x : Sunrpc) (s : Strtoul) (vfs : Vfs File ReaddirRes) (e : Endian)
    (k : Kmalloc) (rqstp : SvcRqst) (base : List ℕ) (table : Table) (resp : VsnfsFh)
    (d : Dispatched Table) (reached : Reach s vfs e table) where
  pub dispatch-getroot-Reach :
      vsnfsd_dispatch e (getroot_procedure x s vfs e k) rqstp base table resp ≡ done d
      → Reach s vfs e d.state
  dispatch-getroot-Reach ran =
      elim (vsnfsd_dispatch-state e (getroot_procedure x s vfs e k) rqstp base table resp d ran) [
        | inl same ↦ rw same reached
        | inr (args, rqstp', status, resp', decoded, called) ↦
            let (r, done_with, is) = parts-eq-done _ d.state status resp' called in
            let (small, plain) = decode_getrootargs-fits x rqstp base args (
              leaving-eq-done (vsnfssvc_decode_getrootargs x) rqstp rqstp' base (some args)
                decoded) in
            next reached (getroot k args resp r small plain done_with is)
      ]

  pub dispatch-lookup-Reach :
      vsnfsd_dispatch e (lookup_procedure x s vfs e k) rqstp base table resp ≡ done d
      → Reach s vfs e d.state
  dispatch-lookup-Reach ran =
      elim (vsnfsd_dispatch-state e (lookup_procedure x s vfs e k) rqstp base table resp d ran) [
        | inl same ↦ rw same reached
        | inr (args, rqstp', status, resp', decoded, called) ↦
            let (r, done_with, is) = parts-eq-done _ d.state status resp' called in
            next reached (lookup k args resp r done_with is)
      ]

-- A procedure that gives back the state that it got.
module _ {Args Resp : Type 0} (e : Endian) (proc : SvcProcedure Args Resp Table)
    (keeps : (table table' : Table) (args : Args) (resp resp' : Resp) (status : ℕ)
      → proc.pc_func table args resp ≡ done (table', status, resp')
      → table' ≡ table) where
  pub dispatch_keeps :
      (rqstp : SvcRqst) (base : List ℕ) (table : Table) (resp : Resp) (d : Dispatched Table)
      → vsnfsd_dispatch e proc rqstp base table resp ≡ done d
      → d.state ≡ table
  dispatch_keeps rqstp base table resp d ran =
      elim (vsnfsd_dispatch-state e proc rqstp base table resp d ran) [
        | inl same ↦ same
        | inr (args, rqstp', status, resp', decoded, called) ↦
            keeps table d.state args resp resp' status called
      ]
