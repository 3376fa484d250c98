-- ===== src/Handle/Decimal.antt =====
-- Reading a handle back with `simple_strtoul`, as the server's lookup and `vsnfsd_fh_to_path` do.
use vsnfs.Base.{
  ℕ, zero, suc, ◌+◌, ◌-◌, ◌*◌, ◌/◌, ◌%◌, ◌^◌, ◌≤◌, ◌<◌, ◌≡◌, ◌↔◌, refl, ◌∙◌, ap, List, [], ◌∷◌,
  ◌++◌, length, take, drop, length-append, length-take, length-drop, append_assoc, take_all,
  ltb_of_lt, All, arith,
}
use vsnfs.Kernel.{IsDigit, value, Strtoul}
use vsnfs.Handle.{decimal, print_ld, handle_of}
use native.Mathlib.Nat.{pow-suc}

value-append : (n : ℕ) (xs : List ℕ) (c : ℕ) → value n (xs ++ c ∷ []) ≡ value n xs * 10 + (c - 48)
value-append n [] c = refl
value-append n (x ∷ xs) c = value-append (n * 10 + (x - 48)) xs c

All-snoc : (xs : List ℕ) (c : ℕ) → All IsDigit xs → IsDigit c → All IsDigit (xs ++ c ∷ [])
All-snoc [] c h k = (k, tt)
All-snoc (x ∷ xs) c h k = (h.0, All-snoc xs c h.1 k)

All-take : (n : ℕ) (xs : List ℕ) → All IsDigit xs → All IsDigit (take n xs)
All-take zero xs h = tt
All-take (suc n) [] h = tt
All-take (suc n) (x ∷ xs) h = (h.0, All-take n xs h.1)

decimal-IsDigit : (fuel n : ℕ) → All IsDigit (decimal fuel n)
unfolding decimal
decimal-IsDigit zero n = tt
decimal-IsDigit (suc f) n =
    ground (
      arith,
      All-snoc (decimal f (n / 10)) (48 + n % 10) (decimal-IsDigit f (n / 10)) (omega arith),
    )

pub value-decimal : (fuel n : ℕ) → n < 10 ^ fuel → value 0 (decimal fuel n) ≡ n
unfolding decimal
value-decimal zero n h = omega arith
value-decimal (suc f) n h = ground (
  arith,
  pow-suc 10 f,
  value-decimal f (n / 10),
  value-append 0 (decimal f (n / 10)) (48 + n % 10),
)

pub length-decimal : (k fuel n : ℕ) → n < 10 ^ suc k → length (decimal fuel n) ≤ suc k
unfolding decimal
length-decimal k zero n h = omega arith
length-decimal zero (suc f) n h = ground arith
length-decimal (suc k) (suc f) n h = ground (
  arith,
  pow-suc 10 (suc k),
  length-decimal k f (n / 10),
  length-append (decimal f (n / 10)) ((48 + n % 10) ∷ []),
)

-- A positive number's text does not begin with a zero.
abbrev Leads : List ℕ → Type 0
Leads [] = ⊥
Leads (c ∷ cs) = 49 ≤ c

Leads-append : (xs ys : List ℕ) → Leads xs → Leads (xs ++ ys)
Leads-append [] ys h = elim h [ ]
Leads-append (x ∷ xs) ys h = h

decimal-Leads : (fuel n : ℕ) → 0 < n → n < 10 ^ fuel → Leads (decimal fuel n)
unfolding decimal
decimal-Leads zero n p h = absurd (omega arith)
decimal-Leads (suc f) n p h = ground (
  arith,
  pow-suc 10 f,
  decimal-Leads f (n / 10),
  Leads-append (decimal f (n / 10)) ((48 + n % 10) ∷ []),
)

mul_mono : (x y p : ℕ) → x ≤ y → x * p ≤ y * p
mul_mono x y p h = grind arith

pub pow_pos : (k : ℕ) → 0 < 10 ^ k
pow_pos zero = omega arith
pow_pos (suc k) = omega (arith, pow-suc 10 k, pow_pos k)

-- `k` digits behind `a` spell less than `(a + 1) * 10 ^ k`.
value-lt : (k a : ℕ) (xs : List ℕ) → All IsDigit xs → length xs ≤ k → value a xs < suc a * 10 ^ k
value-lt k a [] h l = omega (arith, pow_pos k, mul_mono 1 (10 ^ k) (suc a) (pow_pos k))
value-lt zero a (x ∷ xs) h l = absurd (omega arith)
value-lt (suc k) a (x ∷ xs) h l =
    let b = a * 10 + (x - 48) in
    omega (
      arith,
      ap (λ (t : ℕ). suc a * t) (pow-suc 10 k),
      value-lt k b xs h.1 (omega arith),
      mul_mono (suc b) (suc a * 10) (10 ^ k) (omega (arith, h.0)),
    )

module _ (s : Strtoul) where
  open s use {simple_strtoul, simple_strtoul_decimal, simple_strtoul_zero}

  -- What fits the handle is read back as a number below ten million.
  strtoul_shown :
      (text rest : List ℕ)
      → Leads text
      → All IsDigit text
      → (simple_strtoul (take 7 text ++ (0 ∷ rest)) ≡ value 0 (take 7 text))
        × (value 0 (take 7 text) < 10 ^ 7)
  strtoul_shown [] rest h d = elim h [ ]
  strtoul_shown (c ∷ cs) rest h d =
      let small : value 0 (take 7 (c ∷ cs)) < 1 * 10 ^ 7 =
        value-lt 7 0 (take 7 (c ∷ cs)) (All-take 7 (c ∷ cs) d)
          (omega (arith, length-take 7 (c ∷ cs))) in
      (
        simple_strtoul_decimal c (take 6 cs) rest (All-take 7 (c ∷ cs) d) h (omega arith),
        omega arith,
      )

  handle_of_zero : (buf more : List ℕ) → simple_strtoul (handle_of buf 0 ++ more) ≡ 0
  unfolding handle_of decimal
  handle_of_zero buf more = simple_strtoul_zero (drop 2 buf ++ more)

  pub handle_of_text :
      (buf more : List ℕ) (ino : ℕ)
      → 0 < ino
      → ino < 2 ^ 63
      → (simple_strtoul (handle_of buf ino ++ more) ≡ value 0 (take 7 (decimal 20 ino)))
        × (value 0 (take 7 (decimal 20 ino)) < 10 ^ 7)
  unfolding handle_of
  handle_of_text buf more ino p h =
      let text = take 7 (decimal 20 ino) in
      rw (ltb_of_lt ino (2 ^ 63) h, append_assoc text (0 ∷ drop (length text + 1) buf) more)
        (strtoul_shown (decimal 20 ino) _ (decimal-Leads 20 ino p (omega arith))
          (decimal-IsDigit 20 ino))

  -- For an inode number of a 64-bit host below 2 ^ 63, whatever the handle's memory held and
  -- whatever follows it: the server reads the number back from the handle exactly if it has at
  -- most seven digits.
  pub strtoul-handle_of :
      (buf more : List ℕ) (ino : ℕ)
      → ino < 2 ^ 63
      → (simple_strtoul (handle_of buf ino ++ more) ≡ ino) ↔ (ino < 10 ^ 7)
  strtoul-handle_of buf more zero h = (λ _. omega arith, λ _. handle_of_zero buf more)
  strtoul-handle_of buf more (suc n) h =
      let (read, small) = handle_of_text buf more (suc n) (omega arith) h in
      (
        λ e. omega arith,
        λ lt.
            read
            ∙ rw (take_all 7 (decimal 20 (suc n)) (length-decimal 6 20 (suc n) lt))
                (value-decimal 20 (suc n) (omega arith)),
      )

-- A handle keeps its eight bytes.
pub length-handle_of : (buf : List ℕ) (ino : ℕ) → length buf ≡ 8 → length (handle_of buf ino) ≡ 8
unfolding handle_of
length-handle_of buf ino h =
    let shown = take 7 (print_ld ino) in
    omega (
      arith,
      length-append shown (0 ∷ drop (length shown + 1) buf),
      length-take 7 (print_ld ino),
      length-drop (length shown + 1) buf,
    )
