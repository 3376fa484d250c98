-- ===== src/Rpc/Programs.antt =====
-- The RPC programs of the two sides: the client's tables (vsnfsClient.c, vsnfsXdr.c) and the server's
-- (server/vsnfssvc.c, server/vsnfsproc.c), with the numbers of vsnfs.h.
use vsnfs.Base.{
  ℕ, zero, suc, ◌≡◌, ◌↔◌, refl, List, [], ◌∷◌, Option, none, some, ◌==◌, Bool-cases, inl, inr,
  if◌then◌else◌, arith,
}
use mathlib.Core.Option.{some_inj}
use vsnfs.ClientXdr.{Proc, null, getroot, lookup, readdir, read}

-- VSNFS_PROGRAM and VSNFS_VERSION
abbrev pub program : ℕ
program = 110003

abbrev pub version : ℕ
version = 1

-- VSNFSPROC_NULL and its like, which are also `p_proc`.
abbrev pub p_proc : Proc → ℕ
p_proc null = 0
p_proc getroot = 1
p_proc read = 3
p_proc readdir = 7
p_proc lookup = 8

-- The procedures of a version by their numbers, where a number without one has an entry of zeros.
pub record Version : Type 0 where
  pub number : ℕ
  pub procs : List (Option Proc)

-- A program and its versions by their numbers.
pub record Program : Type 0 where
  pub number : ℕ
  pub versions : List (Option Version)

abbrev pub at {ℓ} : {A : Type ℓ} → List (Option A) → ℕ → Option A
at [] n = none
at (a ∷ rest) zero = a
at (a ∷ rest) (suc n) = at rest n

-- The client's array ends behind the number of LOOKUP.
abbrev pub vsnfs_version1 : Version
vsnfs_version1 = record {
  number = 1;
  procs =
      some null
      ∷ some getroot
      ∷ none
      ∷ some read
      ∷ none
      ∷ none
      ∷ none
      ∷ some readdir
      ∷ some lookup
      ∷ [];
}

abbrev pub vsnfs_program : Program
vsnfs_program = record { number = program; versions = none ∷ some vsnfs_version1 ∷ [] }

-- The server's array has VSNFS_NRPROCS entries.
abbrev pub vsnfsd_version1 : Version
vsnfsd_version1 = record {
  number = 1;
  procs =
      some null
      ∷ some getroot
      ∷ none
      ∷ some read
      ∷ none
      ∷ none
      ∷ none
      ∷ some readdir
      ∷ some lookup
      ∷ none
      ∷ [];
}

abbrev pub vsnfsd_program : Program
vsnfsd_program = record { number = program; versions = none ∷ some vsnfsd_version1 ∷ [] }

abbrev pub version_at : Program → (number version : ℕ) → Option Version
version_at prog number v = if prog.number == number then at prog.versions v else none

abbrev pub procs_of : Option Version → List (Option Proc)
procs_of none = []
procs_of (some v) = v.procs

-- The entry that a call with these three numbers names.
abbrev pub entry_at : Program → (number version proc : ℕ) → Option Proc
entry_at prog number v proc = at (procs_of (version_at prog number v)) proc

at-eq-some : (n : ℕ) (p : Proc) → at vsnfsd_version1.procs n ≡ some p → n ≡ p_proc p
at-eq-some zero p h = rw (← some_inj.0 h) refl
at-eq-some (suc zero) p h = rw (← some_inj.0 h) refl
at-eq-some (suc (suc zero)) p h = cc
at-eq-some (suc (suc (suc zero))) p h = rw (← some_inj.0 h) refl
at-eq-some (suc (suc (suc (suc zero)))) p h = cc
at-eq-some (suc (suc (suc (suc (suc zero))))) p h = cc
at-eq-some (suc (suc (suc (suc (suc (suc zero)))))) p h = cc
at-eq-some (suc (suc (suc (suc (suc (suc (suc zero))))))) p h = rw (← some_inj.0 h) refl
at-eq-some (suc (suc (suc (suc (suc (suc (suc (suc zero)))))))) p h = rw (← some_inj.0 h) refl
at-eq-some (suc (suc (suc (suc (suc (suc (suc (suc (suc zero))))))))) p h = cc
at-eq-some (suc (suc (suc (suc (suc (suc (suc (suc (suc (suc n)))))))))) p h = cc

same_procs : (n : ℕ) → at vsnfs_version1.procs n ≡ at vsnfsd_version1.procs n
same_procs zero = refl
same_procs (suc zero) = refl
same_procs (suc (suc zero)) = refl
same_procs (suc (suc (suc zero))) = refl
same_procs (suc (suc (suc (suc zero)))) = refl
same_procs (suc (suc (suc (suc (suc zero))))) = refl
same_procs (suc (suc (suc (suc (suc (suc zero)))))) = refl
same_procs (suc (suc (suc (suc (suc (suc (suc zero))))))) = refl
same_procs (suc (suc (suc (suc (suc (suc (suc (suc zero)))))))) = refl
same_procs (suc (suc (suc (suc (suc (suc (suc (suc (suc zero))))))))) = refl
same_procs (suc (suc (suc (suc (suc (suc (suc (suc (suc (suc n)))))))))) = refl

entry_at-eq-some :
    (number v n : ℕ) (p : Proc)
    → entry_at vsnfsd_program number v n ≡ some p
    → (number ≡ program) × (v ≡ version) × (n ≡ p_proc p)
entry_at-eq-some number zero n p h = ground arith
entry_at-eq-some number (suc zero) n p h = elim (Bool-cases (program == number)) [
  | inl same ↦ (ground (arith, same), refl, at-eq-some n p (rw same at h))
  | inr another ↦ absurd (ground (arith, another, h))
]
entry_at-eq-some number (suc (suc v)) n p h = ground arith

entry_at-p_proc : (p : Proc) → entry_at vsnfsd_program program version (p_proc p) ≡ some p
entry_at-p_proc null = refl
entry_at-p_proc getroot = refl
entry_at-p_proc lookup = refl
entry_at-p_proc readdir = refl
entry_at-p_proc read = refl

same_entries :
    (number v n : ℕ) → entry_at vsnfs_program number v n ≡ entry_at vsnfsd_program number v n
same_entries number zero n = refl
same_entries number (suc zero) n = elim (Bool-cases (program == number)) [
  | inl same ↦ rw same (same_procs n)
  | inr another ↦ rw another refl
]
same_entries number (suc (suc v)) n = refl

-- The two sides' tables agree: a program number, a version and a procedure number name the same
-- entry on the client and on the server, and they name a procedure exactly if they are
-- VSNFS_PROGRAM, VSNFS_VERSION and the number that the client puts into a call of that procedure.
pub programs_agree :
    (number v n : ℕ) (p : Proc)
    → (entry_at vsnfs_program number v n ≡ entry_at vsnfsd_program number v n)
      × ((entry_at vsnfsd_program number v n ≡ some p)
          ↔ ((number ≡ program) × (v ≡ version) × (n ≡ p_proc p)))
programs_agree number v n p = (
  same_entries number v n,
  (entry_at-eq-some number v n p, λ (a, b, c). rw (a, b, c) (entry_at-p_proc p)),
)
