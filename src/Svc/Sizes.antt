-- ===== src/Svc/Sizes.antt =====
-- The heads of the replies against `pc_xdrressize` of the procedure table (server/vsnfsproc.c) and
-- `p_replen` of the client's (vsnfsXdr.c).
use vsnfs.Base.{
  ℕ, ◌+◌, ◌≤◌, ◌≡◌, subst, ap, List, ◌++◌, Option, Bool-cases, Option-cases, inl, inr, ◌==◌, Endian,
  done, >>=-eq-done, done-injective, length, length-append, length-store32, store32, arith,
}
use vsnfs.ServerXdr.{SvcRqst}
use vsnfs.Svc.{SvcProcedure, Dispatched, dispatch_call, vsnfsd_dispatch}

-- An encoder adds at most so many bytes to the reply's head, and a decoder leaves it alone.
pub record IsSized {Args Resp State : Type 0} (proc : SvcProcedure Args Resp State) (bytes : ℕ)
    : Type 0 where
  pub encodes :
      (rqstp : SvcRqst) (resp : Resp)
      → length (proc.pc_encode rqstp resp).1.head ≤ length rqstp.head + bytes
  pub decodes :
      (rqstp rqstp' : SvcRqst) (base : List ℕ) (args : Option Args)
      → proc.pc_decode rqstp base ≡ done (args, rqstp')
      → rqstp'.head ≡ rqstp.head

module _ {Args Resp State : Type 0} (e : Endian) (proc : SvcProcedure Args Resp State) (bytes : ℕ)
    (sized : IsSized proc bytes) where
  dispatch_call-length :
      (rqstp : SvcRqst) (state : State) (resp : Resp) (args : Args) (d : Dispatched State)
      → dispatch_call e proc rqstp state resp args ≡ done d
      → length d.rqstp.head ≤ length rqstp.head + 4 + bytes
  unfolding dispatch_call
  dispatch_call-length rqstp state resp args d ran =
      let ((state', nfserr, resp'), called, last) =
        >>=-eq-done (proc.pc_func state args resp) _ ran in
      let with_status : SvcRqst = record rqstp { head = rqstp.head ++ store32 e nfserr } in
      let grown : length with_status.head ≡ length rqstp.head + 4 =
        omega (arith, length-append rqstp.head (store32 e nfserr), length-store32 e nfserr) in
      elim (Bool-cases (nfserr == 0)) [
        | inl good ↦
            subst (λ (q : Dispatched State). length q.rqstp.head ≤ length rqstp.head + 4 + bytes)
              (done-injective (rw good at last))
              (omega (arith, grown, sized.encodes with_status resp'))
        | inr bad ↦
            subst (λ (q : Dispatched State). length q.rqstp.head ≤ length rqstp.head + 4 + bytes)
              (done-injective (rw bad at last)) (omega (arith, grown))
      ]

  -- A status, and behind it what the encoder adds; a refused request adds nothing.
  pub vsnfsd_dispatch-length :
      (rqstp : SvcRqst) (base : List ℕ) (state : State) (resp : Resp) (d : Dispatched State)
      → vsnfsd_dispatch e proc rqstp base state resp ≡ done d
      → length d.rqstp.head ≤ length rqstp.head + 4 + bytes
  unfolding vsnfsd_dispatch
  vsnfsd_dispatch-length rqstp base state resp d ran =
      let ((args, rqstp'), decoded, rest) = >>=-eq-done (proc.pc_decode rqstp base) _ ran in
      let same = sized.decodes rqstp rqstp' base args decoded in
      elim (Option-cases args) [
        | inl refused ↦
            subst (λ (q : Dispatched State). length q.rqstp.head ≤ length rqstp.head + 4 + bytes)
              (done-injective (rw refused at rest)) (omega (arith, ap length same))
        | inr (a, made) ↦
            omega
              (arith, ap length same, dispatch_call-length rqstp' state resp a d (rw made at rest))
      ]
