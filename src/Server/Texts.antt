-- ===== src/Server/Texts.antt =====
-- Paths and names as C strings (server/vsnfsproc.c).
use vsnfs.Base.{ℕ, ◌≤◌, ◌≡◌, ◌≢◌, refl, List, [], ◌∷◌, ◌++◌, false, length, arith}
use vsnfs.ServerXdr.{has_nul, has_nul_or_slash}
use vsnfs.Server.{until_nul}

pub has_nul-until_nul : (xs : List ℕ) → has_nul (until_nul xs) ≡ false
unfolding has_nul until_nul
has_nul-until_nul [] = refl
has_nul-until_nul (c ∷ cs) = ground (arith, has_nul-until_nul cs)

pub length-until_nul : (xs : List ℕ) → length (until_nul xs) ≤ length xs
unfolding until_nul
length-until_nul [] = omega arith
length-until_nul (c ∷ cs) = ground (arith, length-until_nul cs)

pub until_nul_all : (xs : List ℕ) → has_nul xs ≡ false → until_nul xs ≡ xs
unfolding has_nul until_nul
until_nul_all [] h = refl
until_nul_all (c ∷ cs) h = ground (arith, until_nul_all cs)

pub has_nul-append :
    (xs ys : List ℕ) → has_nul xs ≡ false → has_nul ys ≡ false → has_nul (xs ++ ys) ≡ false
unfolding has_nul
has_nul-append [] ys h k = k
has_nul-append (c ∷ cs) ys h k = ground (arith, has_nul-append cs ys)

pub until_nul-append-ne-nil :
    (xs ys : List ℕ) → has_nul xs ≡ false → xs ≢ [] → until_nul (xs ++ ys) ≢ []
unfolding has_nul until_nul
until_nul-append-ne-nil [] ys h k = absurd (k refl)
until_nul-append-ne-nil (c ∷ cs) ys h k = ground arith

-- A name without a NUL and a slash has no NUL.
pub has_nul-has_nul_or_slash :
    (name : List ℕ) → has_nul_or_slash name ≡ false → has_nul name ≡ false
unfolding has_nul has_nul_or_slash
has_nul-has_nul_or_slash [] h = refl
has_nul-has_nul_or_slash (c ∷ cs) h = ground (arith, has_nul-has_nul_or_slash cs)
