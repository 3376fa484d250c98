-- ===== src/Handle/Cut.antt =====
-- What is read back from the handle of an inode whose number has more digits than fit
-- (`snprintf` in server/vsnfsproc.c and server/vsnfsxdr.c).
use vsnfs.Base.{
  ℕ, zero, suc, ◌+◌, ◌*◌, ◌/◌, ◌%◌, ◌^◌, ◌≤◌, ◌<◌, ◌≡◌, refl, ap, ◌∙◌, List, [], ◌∷◌, ◌++◌, length,
  take, length-append, take_all, ltb_of_le, arith,
}
use vsnfs.Kernel.{value, Strtoul}
use vsnfs.Handle.{decimal, handle_of}
use vsnfs.Handle.Decimal.{value-decimal, length-decimal, pow_pos, handle_of_text}
use native.Mathlib.Nat.{pow-suc, pow-succ', div-div-eq-div-mul, div-mul-le_self, lt-div-mul-add}

take-append_le : (n : ℕ) (xs ys : List ℕ) → n ≤ length xs → take n (xs ++ ys) ≡ take n xs
take-append_le zero xs ys h = refl
take-append_le (suc n) [] ys h = absurd (omega (arith, h))
take-append_le (suc n) (c ∷ xs) ys h =
    ap (λ (t : List ℕ). c ∷ t) (take-append_le n xs ys (omega arith))

le-length-decimal : (k fuel n : ℕ) → 10 ^ k ≤ n → n < 10 ^ fuel → suc k ≤ length (decimal fuel n)
unfolding decimal
le-length-decimal k zero n low high = absurd (omega (arith, pow_pos k))
le-length-decimal zero (suc f) n low high =
    ground (arith, length-append (decimal f (n / 10)) ((48 + n % 10) ∷ []))
le-length-decimal (suc k) (suc f) n low high = ground (
  arith,
  pow-suc 10 k,
  pow-suc 10 f,
  pow_pos k,
  le-length-decimal k f (n / 10),
  length-append (decimal f (n / 10)) ((48 + n % 10) ∷ []),
)

-- The first seven digits of a number with `k` digits behind them.
value-cut :
    (k fuel n : ℕ)
    → 10 ^ 6 * 10 ^ k ≤ n
    → n < 10 ^ 7 * 10 ^ k
    → n < 10 ^ fuel
    → value 0 (take 7 (decimal fuel n)) ≡ n / 10 ^ k
unfolding decimal
value-cut zero fuel n low high all =
    rw (take_all 7 (decimal fuel n) (length-decimal 6 fuel n (omega arith)))
      (value-decimal fuel n all ∙ omega arith)
value-cut (suc k) zero n low high all = absurd (omega (arith, pow_pos (suc k)))
value-cut (suc k) (suc f) n low high all =
    let grows = pow-suc 10 k in
    let front : value 0 (take 7 (decimal f (n / 10))) ≡ n / 10 / 10 ^ k =
      value-cut k f (n / 10) (omega (arith, grows)) (omega (arith, grows))
        (omega (arith, pow-suc 10 f)) in
    let seven : 7 ≤ length (decimal f (n / 10)) =
      le-length-decimal 6 f (n / 10) (omega (arith, grows, pow_pos k))
        (omega (arith, pow-suc 10 f)) in
    rw
      (
        ltb_of_le n 10 (omega (arith, grows, pow_pos k)),
        take-append_le 7 (decimal f (n / 10)) ((48 + n % 10) ∷ []) seven,
        front,
        div-div-eq-div-mul n 10 (10 ^ k),
        pow-succ' 10 k,
      )
      refl

-- For an inode number below 2 ^ 63 with `k` digits more than seven, whatever the handle's memory held
-- and whatever follows it: the handle is read back as the number without its last `k` digits.
pub strtoul-handle_of_long :
    (s : Strtoul) (buf more : List ℕ) (ino k : ℕ)
    → 10 ^ 6 * 10 ^ k ≤ ino
    → ino < 10 ^ 7 * 10 ^ k
    → ino < 2 ^ 63
    → s.simple_strtoul (handle_of buf ino ++ more) ≡ ino / 10 ^ k
strtoul-handle_of_long s buf more ino k low high fits =
    (handle_of_text s buf more ino (omega (arith, pow_pos k)) fits).0
    ∙ value-cut k 20 ino low high (omega arith)

cut_pos : (n m q : ℕ) → n < q * m + m → m ≤ n → 0 < q
cut_pos n m zero h k = absurd (omega (arith, h, k))
cut_pos n m (suc q) h k = omega arith

ten_le : (q m : ℕ) → 10 ≤ m → q * 10 ≤ q * m
ten_le q m h = grind arith

-- What is left of such a number is positive, and smaller if a digit is cut off.
pub cut_lt :
    (ino k : ℕ) → 10 ^ 6 * 10 ^ suc k ≤ ino → (0 < ino / 10 ^ suc k) × (ino / 10 ^ suc k < ino)
cut_lt ino k low =
    let grows = pow-suc 10 k in
    let enough = lt-div-mul-add {a = ino} {b = 10 ^ suc k} (pow_pos (suc k)) in
    let positive : 0 < ino / 10 ^ suc k =
      cut_pos ino (10 ^ suc k) (ino / 10 ^ suc k) enough (omega (arith, pow_pos (suc k))) in
    (
      positive,
      omega (
        arith,
        grows,
        pow_pos k,
        div-mul-le_self ino (10 ^ suc k),
        ten_le (ino / 10 ^ suc k) (10 ^ suc k) (omega (arith, grows, pow_pos k)),
      ),
    )
