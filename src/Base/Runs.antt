-- ===== src/Base/Runs.antt =====
-- Runs of kernel code: a result, or a fault that stops the kernel thread.
use mathlib.Core.Path.{◌≡◌, refl}
use mathlib.Core.Bool.{Bool, true, false}
use mathlib.Core.Logic.{◌⊎◌, inl, inr}
use vsnfs.Base.Tests.{if◌then◌else◌}

-- What the code may do that has no result: use a null pointer, or an address past the end of the
-- buffer at hand. `out_of_fuel` is no event of the code: a loop of the model took all its rounds.
pub data Fault : Type 0 where
  null_pointer out_of_bounds out_of_fuel : Fault

pub data Run {ℓ} (A : Type ℓ) : Type ℓ where
  done : A → Run A
  oops : Fault → Run A

infixl 5 ◌>>=◌ ◌>>◌
abbrev pub ◌>>=◌ {ℓ κ} : {A : Type ℓ} {B : Type κ} → Run A → (A → Run B) → Run B
done a >>= f = f a
oops e >>= f = oops e

abbrev pub ◌>>◌ {ℓ κ} : {A : Type ℓ} {B : Type κ} → Run A → Run B → Run B
m >> k = m >>= λ _. k

pub Run-cases {ℓ} :
    {A : Type ℓ} (r : Run A) → ((a : A) × (r ≡ done a)) ⊎ ((e : Fault) × (r ≡ oops e))
Run-cases (done a) = inl (a, refl)
Run-cases (oops e) = inr (e, refl)

-- Inversion of a bind that returned.
pub >>=-eq-done {ℓ κ} :
    {A : Type ℓ} {B : Type κ} (m : Run A) (f : A → Run B) {b : B}
    → (m >>= f) ≡ done b
    → (a : A) × (m ≡ done a) × (f a ≡ done b)
>>=-eq-done (done a) f h = (a, refl, h)
>>=-eq-done (oops e) f h = cc

-- A step that faults unless a test passes.
abbrev pub need : Bool → Fault → Run (Unit {0})
need true e = done tt
need false e = oops e

pub done-injective {ℓ} : {A : Type ℓ} {a b : A} → done a ≡ done b → a ≡ b
done-injective h = cc

-- Two runs that end with the same fault, or with results that are related.
abbrev pub Agree : {A B : Type 0} → (A → B → Type 0) → Run A → Run B → Type 0
Agree R (done a) (done b) = R a b
Agree R (oops f) (oops g) = f ≡ g
Agree R (done a) (oops g) = ⊥
Agree R (oops f) (done b) = ⊥

pub Agree->>= :
    {A B C D : Type 0} (R : A → B → Type 0) (S : C → D → Type 0) (m : Run A) (m' : Run B)
    (f : A → Run C) (f' : B → Run D)
    → Agree R m m'
    → ((a : A) (b : B) → R a b → Agree S (f a) (f' b))
    → Agree S (m >>= f) (m' >>= f')
Agree->>= R S (done a) (done b) f f' same keeps = keeps a b same
Agree->>= R S (oops e) (oops e') f f' same keeps = same
Agree->>= R S (done a) (oops e') f f' same keeps = absurd same
Agree->>= R S (oops e) (done b) f f' same keeps = absurd same

pub Agree-refl : {A : Type 0} (R : A → A → Type 0) (m : Run A) → ((a : A) → R a a) → Agree R m m
Agree-refl R (done a) r = r a
Agree-refl R (oops e) r = refl

pub Agree-need :
    {A B : Type 0} (R : A → B → Type 0) (b : Bool) (f : Fault) (m : Run A) (m' : Run B)
    → Agree R m m'
    → Agree R (need b f >> m) (need b f >> m')
Agree-need R true f m m' same = same
Agree-need R false f m m' same = refl

pub Agree-if :
    {A B : Type 0} (R : A → B → Type 0) (b : Bool) (m n : Run A) (m' n' : Run B)
    → Agree R m m'
    → Agree R n n'
    → Agree R (if b then m else n) (if b then m' else n')
Agree-if R true m n m' n' yes_same no_same = yes_same
Agree-if R false m n m' n' yes_same no_same = no_same

pub Agree-then :
    {A C D : Type 0} (S : C → D → Type 0) (m : Run A) (f : A → Run C) (f' : A → Run D)
    → ((a : A) → Agree S (f a) (f' a))
    → Agree S (m >>= f) (m >>= f')
Agree-then S (done a) f f' keeps = keeps a
Agree-then S (oops e) f f' keeps = refl
