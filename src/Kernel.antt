-- ===== src/Kernel.antt =====
-- What the code uses of the kernel's libraries and the source does not hold: the XDR helpers of
-- linux/sunrpc (xdr.h, svc.h), and `simple_strtoul`. They are parameters with their documented laws.
use vsnfs.Base.{
  ℕ, ◌+◌, ◌-◌, ◌*◌, ◌/◌, ◌^◌, ◌≤◌, ◌<◌, ◌≡◌, List, [], ◌∷◌, ◌++◌, Bool, Option, none, some, Run,
  done, leb, length, take, drop, replicate, All, be32, IsWord,
}

abbrev pub page_size : ℕ
page_size = 4096

pub record Sunrpc : Type 0 where
  -- XDR_QUADLEN: the words that so many bytes take.
  pub quadlen : ℕ → ℕ
  pub quadlen_lem : (n : ℕ) → quadlen n ≡ (n + 3) / 4
  -- The bytes that `xdr_encode_array(p, obj, len)` writes: the length, the bytes, and padding.
  pub encode_array : List ℕ → ℕ → List ℕ
  pub encode_array_lem :
      (obj : List ℕ) (n : ℕ)
      → n ≤ length obj
      → encode_array obj n ≡ be32 n ++ (take n obj ++ replicate (4 * quadlen n - n) 0)
  -- `xdr_decode_string_inplace(p, &str, &len, max)`: null, or the string, its length and the next
  -- position.
  pub decode_string_inplace : List ℕ → ℕ → Run (Option (List ℕ × ℕ × List ℕ))
  pub decode_string_long :
      (n max : ℕ) (body : List ℕ)
      → IsWord n
      → max < n
      → decode_string_inplace (be32 n ++ body) max ≡ done none
  pub decode_string_fits :
      (n max : ℕ) (body : List ℕ)
      → IsWord n
      → n ≤ max
      → 4 * quadlen n ≤ length body
      → decode_string_inplace (be32 n ++ body) max
        ≡ done (some (take n body, n, drop (4 * quadlen n) body))
  pub decode_string_bound :
      (p : List ℕ) (max : ℕ) (text : List ℕ) (n : ℕ) (rest : List ℕ)
      → decode_string_inplace p max ≡ done (some (text, n, rest))
      → n ≤ max
  -- `xdr_argsize_check`: whether so many bytes of the request were there; `xdr_ressize_check`:
  -- whether a reply's head of so many bytes fits its page.
  pub argsize_check : (iov_len used : ℕ) → Bool
  pub argsize_check_lem : (iov_len used : ℕ) → argsize_check iov_len used ≡ leb used iov_len
  pub ressize_check : ℕ → Bool
  pub ressize_check_lem : (used : ℕ) → ressize_check used ≡ leb used page_size
  -- `xdr_adjust_iovec`: sets the length of the send vector, and returns it.
  pub adjust_iovec : ℕ → ℕ
  pub adjust_iovec_lem : (used : ℕ) → adjust_iovec used ≡ used
  -- RPC_REPHDRSIZE, in words.
  pub rephdrsize : ℕ

abbrev pub IsDigit : ℕ → Type 0
IsDigit c = (48 ≤ c) × (c ≤ 57)

-- The number that decimal digits spell behind `n`.
abbrev pub value : ℕ → List ℕ → ℕ
value n [] = n
value n (c ∷ cs) = value (n * 10 + (c - 48)) cs

-- `simple_strtoul(text, &end, 0)`: with base 0 a text that begins with 1 to 9 is decimal.
pub record Strtoul : Type 0 where
  pub simple_strtoul : List ℕ → ℕ
  pub simple_strtoul_decimal :
      (c : ℕ) (cs rest : List ℕ)
      → All IsDigit (c ∷ cs)
      → 49 ≤ c
      → value 0 (c ∷ cs) < 2 ^ 64
      → simple_strtoul ((c ∷ cs) ++ (0 ∷ rest)) ≡ value 0 (c ∷ cs)
  pub simple_strtoul_zero : (rest : List ℕ) → simple_strtoul (48 ∷ 0 ∷ rest) ≡ 0
