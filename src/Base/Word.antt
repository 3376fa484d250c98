-- ===== src/Base/Word.antt =====
-- 32-bit words in memory. The wire is a list of bytes, and a pointer into it is the rest of the list.
use Prim.Native.Nat.{ℕ, ◌+◌, ◌*◌, ◌/◌, ◌%◌, ◌^◌, ◌<◌, ◌≤◌}
use mathlib.Core.Path.{◌≡◌, refl}
use mathlib.Core.List.{List, [], ◌∷◌, ◌++◌}
use native.Mathlib.Omega.{arith}
use vsnfs.Base.Tests.{leb, leb_of_le, if◌then◌else◌}
use vsnfs.Base.Lists.{length, length-append, take, drop, take-append, drop-append}
use vsnfs.Base.Runs.{Run, done, oops, out_of_bounds}

abbrev pub IsByte : ℕ → Type 0
IsByte b = b < 256

abbrev pub IsWord : ℕ → Type 0
IsWord x = x < 2 ^ 32

pub data Endian : Type 0 where
  little big : Endian

-- The bytes of a word, the most significant first.
unfoldable pub be32 : ℕ → List ℕ
be32 x = (x / 2 ^ 24 % 256) ∷ (x / 2 ^ 16 % 256) ∷ (x / 2 ^ 8 % 256) ∷ (x % 256) ∷ []

unfoldable pub le32 : ℕ → List ℕ
le32 x = (x % 256) ∷ (x / 2 ^ 8 % 256) ∷ (x / 2 ^ 16 % 256) ∷ (x / 2 ^ 24 % 256) ∷ []

unfoldable pub swab32 : ℕ → ℕ
swab32 x = x % 256 * 2 ^ 24 + x / 2 ^ 8 % 256 * 2 ^ 16 + x / 2 ^ 16 % 256 * 2 ^ 8 + x / 2 ^ 24 % 256

-- The number that stands for a `__be32` on the host, and the bytes that the host stores for a number.
unfoldable pub cpu_to_be32 : Endian → ℕ → ℕ
unfolding swab32
cpu_to_be32 little x = swab32 x
cpu_to_be32 big x = x % 2 ^ 32

unfoldable pub store32 : Endian → ℕ → List ℕ
unfolding be32 le32
store32 little x = le32 x
store32 big x = be32 x

pub length-store32 : (e : Endian) (x : ℕ) → length (store32 e x) ≡ 4
unfolding store32 be32 le32
length-store32 little x = refl
length-store32 big x = refl

-- `*p++ = cpu_to_be32(x)` writes the same bytes on every host.
pub store32-cpu_to_be32 : (e : Endian) (x : ℕ) → store32 e (cpu_to_be32 e x) ≡ be32 x
unfolding store32 cpu_to_be32
store32-cpu_to_be32 little x = ground arith
store32-cpu_to_be32 big x = ground arith

pub cpu_to_be32_zero : (e : Endian) → cpu_to_be32 e 0 ≡ 0
unfolding cpu_to_be32
cpu_to_be32_zero little = refl
cpu_to_be32_zero big = refl

-- No other word is stored as the word 0.
pub cpu_to_be32-eq-zero : (e : Endian) (x : ℕ) → IsWord x → cpu_to_be32 e x ≡ 0 → x ≡ 0
unfolding cpu_to_be32
cpu_to_be32-eq-zero little x h p = omega arith
cpu_to_be32-eq-zero big x h p = omega arith

pub length-be32 : (x : ℕ) → length (be32 x) ≡ 4
unfolding be32
length-be32 x = refl

-- `ntohl(*p++)`; past the end of the memory it faults.
unfoldable pub get_be32 : List ℕ → Run (ℕ × List ℕ)
get_be32 (a ∷ b ∷ c ∷ d ∷ rest) = done (a * 2 ^ 24 + b * 2 ^ 16 + c * 2 ^ 8 + d, rest)
get_be32 _ = oops out_of_bounds

pub get_be32-long :
    (p : List ℕ) → 4 ≤ length p → (x : ℕ) × (rest : List ℕ) × (get_be32 p ≡ done (x, rest))
unfolding get_be32
get_be32-long (a ∷ b ∷ c ∷ d ∷ rest) h = (_, _, refl)
get_be32-long [] h = absurd (omega arith)
get_be32-long (a ∷ []) h = absurd (omega arith)
get_be32-long (a ∷ b ∷ []) h = absurd (omega arith)
get_be32-long (a ∷ b ∷ c ∷ []) h = absurd (omega arith)

pub get_be32-be32 : (x : ℕ) (rest : List ℕ) → IsWord x → get_be32 (be32 x ++ rest) ≡ done (x, rest)
unfolding get_be32 be32
get_be32-be32 x rest h = ground arith

-- `memcpy(dst, p, n); p += n`
unfoldable pub get_bytes : ℕ → List ℕ → Run (List ℕ × List ℕ)
get_bytes n xs = if leb n (length xs) then done (take n xs, drop n xs) else oops out_of_bounds

pub get_bytes-append :
    (n : ℕ) (xs rest : List ℕ) → length xs ≡ n → get_bytes n (xs ++ rest) ≡ done (xs, rest)
unfolding get_bytes
get_bytes-append n xs rest h = rw (
  leb_of_le n (length (xs ++ rest)) (omega (arith, length-append xs rest)),
  take-append n xs rest h,
  drop-append n xs rest h,
)
