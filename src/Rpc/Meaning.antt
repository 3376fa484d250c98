-- ===== src/Rpc/Meaning.antt =====
-- The server's table up to what its clients can see of it: any calls (server/vsnfssvc.c,
-- server/vsnfsproc.c) as a function on the tables that name the same paths.

use mathlib.Core.Quot
use mathlib.Core.Quot.{Quot, Quot-set}
use vsnfs.Base.{
  ◌≡◌, refl, sym, ap, ◌∙◌, List, [], ◌∷◌, Endian, Run, done, oops, Run-cases, inl, inr, ◌>>=◌,
  Agree, Agree->>=,
}
use vsnfs.Kernel.{Sunrpc, Strtoul}
use vsnfs.Vfs.{Vfs}
use vsnfs.ClientXdr.{RpcRqst, Proc}
use vsnfs.ServerXdr.{ReaddirRes}
use vsnfs.Server.{Table}
use vsnfs.Server.Same.{Same}
use vsnfs.Rpc.{Answer}
use vsnfs.Rpc.Serve.{Surroundings, serve}
use vsnfs.Rpc.Same.{SameAnswer, serve-Same}

-- A table with the list, its order and its inode numbers without a lookup forgotten.
abbrev pub Meaning : Type 0
Meaning = Quot Same

abbrev pub meaning : Table → Meaning
meaning = Quot.mk

-- A run whose table is forgotten up to its meaning, and one whose table is forgotten altogether.
abbrev pub meant : {A : Type 0} → Run (A × Table) → Run (A × Meaning)
meant r = do (a, t) ← r; done (a, meaning t)

abbrev pub answers : {A : Type 0} → Run (A × Table) → Run A
answers r = do (a, t) ← r; done a

abbrev Alike : {A : Type 0} → A × Table → A × Table → Type 0
Alike a b = Same a.1 b.1 × (a.0 ≡ b.0)

Agree-meant : {A : Type 0} (r r' : Run (A × Table)) → Agree Alike r r' → meant r ≡ meant r'
Agree-meant (done (a, t)) (done (b, t')) (same, is) =
    rw is (ap (λ (m : Meaning). done (b, m)) (Quot.sound same))
Agree-meant (oops f) (oops g) is = ap oops is
Agree-meant (done a) (oops g) is = absurd is
Agree-meant (oops f) (done b) is = absurd is

Agree-answers : {A : Type 0} (r r' : Run (A × Table)) → Agree Alike r r' → answers r ≡ answers r'
Agree-answers (done (a, t)) (done (b, t')) (same, is) = ap done is
Agree-answers (oops f) (oops g) is = ap oops is
Agree-answers (done a) (oops g) is = absurd is
Agree-answers (oops f) (done b) is = absurd is

-- A call, with what surrounds the server in it.
pub record Request : Type 0 where
  pub env : Surroundings
  pub proc : Proc
  pub sent : RpcRqst

module _ {File : Type 0} (x : Sunrpc) (s : Strtoul) (vfs : Vfs File ReaddirRes) (e : Endian) where
  -- Calls one after the other, up to the first fault.
  abbrev pub serve_all : Table → List Request → Run (List Answer × Table)
  serve_all table [] = done ([], table)
  serve_all table (r ∷ rest) = do
    (answer, table') ← serve x s vfs e r.env table r.proc r.sent
    (more, table'') ← serve_all table' rest
    done (answer ∷ more, table'')

  -- The same on meanings: a call is one that any table of the meaning serves.
  pub serve_meaning : Meaning → Request → Run (Answer × Meaning)
  serve_meaning m r =
      Quot.lift (hlevel Quot-set) (λ table. meant (serve x s vfs e r.env table r.proc r.sent))
        (λ t t' same. Agree-meant _ _ (serve-Same x s vfs e r.env r.proc t t' r.sent same)) m

  abbrev pub serve_meanings : Meaning → List Request → Run (List Answer × Meaning)
  serve_meanings m [] = done ([], m)
  serve_meanings m (r ∷ rest) = do
    (answer, m') ← serve_meaning m r
    (more, m'') ← serve_meanings m' rest
    done (answer ∷ more, m'')

  serve_all-Agree :
      (requests : List Request) (t t' : Table)
      → Same t t'
      → Agree Alike (serve_all t requests) (serve_all t' requests)
  serve_all-Agree [] t t' same = (same, refl)
  serve_all-Agree (r ∷ rest) t t' same =
      Agree->>= SameAnswer Alike (serve x s vfs e r.env t r.proc r.sent)
        (serve x s vfs e r.env t' r.proc r.sent) _ _
        (serve-Same x s vfs e r.env r.proc t t' r.sent same)
        (λ (answer, u) (answer', u') (kept, is).
          Agree->>= Alike Alike (serve_all u rest) (serve_all u' rest) _ _
            (serve_all-Agree rest u u' kept)
            (λ (more, v) (more', v') (left, is'). (left, rw (is, is') refl)))

  serve_meanings-meaning :
      (requests : List Request) (t : Table)
      → serve_meanings (meaning t) requests ≡ meant (serve_all t requests)
  unfolding serve_meaning
  serve_meanings-meaning [] t = refl
  serve_meanings-meaning (r ∷ rest) t = elim (Run-cases (serve x s vfs e r.env t r.proc r.sent)) [
    | inr (f, faulted) ↦ rw faulted refl
    | inl ((answer, u), served) ↦
        rw (served, serve_meanings-meaning rest u)
          (elim (Run-cases (serve_all u rest)) [
            | inr (f, faulted) ↦ rw faulted refl
            | inl ((more, v), ran) ↦ rw ran refl
          ])
  ]

  -- The list, its order and nodes behind another of their number do not show: on two tables that
  -- name the same paths, any calls of any procedures end with the same fault or give the same
  -- answers, and on either they do what `serve_meanings` does, which knows a table only as the class
  -- of all tables that name its paths.
  pub serve_all-Same :
      (requests : List Request) (t t' : Table)
      → Same t t'
      → (answers (serve_all t requests) ≡ answers (serve_all t' requests))
        × (meant (serve_all t requests) ≡ serve_meanings (meaning t') requests)
  serve_all-Same requests t t' same =
      let alike = serve_all-Agree requests t t' same in
      (
        Agree-answers (serve_all t requests) (serve_all t' requests) alike,
        Agree-meant (serve_all t requests) (serve_all t' requests) alike
            ∙ sym (serve_meanings-meaning requests t'),
      )
