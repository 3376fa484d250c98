-- ===== src/Wire/Bounds.antt =====
-- Lengths and splits of what the XDR helpers write.
use vsnfs.Base.{
  ℕ, ◌+◌, ◌-◌, ◌*◌, ◌≤◌, ◌≡◌, refl, sym, ap, ◌∙◌, List, ◌++◌, append_assoc, done, some, none,
  Bool-cases, inl, inr, ltb, if◌then◌else◌, length, take, drop, replicate, length-append,
  length-take, length-replicate, take-append, drop-append, take_all, be32, get_be32-be32,
  get_bytes-append, length-be32, IsWord, arith,
}
use vsnfs.Protocol.{VsnfsFh, IsFh, fhsize}
use vsnfs.Kernel.{Sunrpc}
use vsnfs.ClientXdr.{xdr_encode_fhandle, xdr_decode_fhandle}
use vsnfs.ServerXdr.{decode_fh}

-- The bytes of a handle and its type.
abbrev pub fh_bytes : VsnfsFh → List ℕ
fh_bytes fh = fh.handle ++ be32 fh.type

pub xdr_encode_fhandle_lem :
    (p : List ℕ) (fh : VsnfsFh) → IsFh fh → xdr_encode_fhandle p fh ≡ p ++ fh_bytes fh
unfolding xdr_encode_fhandle
xdr_encode_fhandle_lem p fh h = rw (take_all fhsize fh.handle (omega arith))

pub length-fh_bytes : (fh : VsnfsFh) → IsFh fh → length (fh_bytes fh) ≡ 12
length-fh_bytes fh h = omega (arith, length-append fh.handle (be32 fh.type), length-be32 fh.type)

pub decode_fh-fh_bytes :
    (fh : VsnfsFh) (rest : List ℕ) → IsFh fh → decode_fh (fh_bytes fh ++ rest) ≡ done (fh, rest)
unfolding decode_fh
decode_fh-fh_bytes fh rest h = rw (
  append_assoc fh.handle (be32 fh.type) rest,
  get_bytes-append 8 fh.handle (be32 fh.type ++ rest) h.0,
  get_be32-be32 fh.type rest h.1,
)

pub xdr_decode_fhandle-fh_bytes :
    (fh : VsnfsFh) (rest : List ℕ)
    → IsFh fh
    → xdr_decode_fhandle (fh_bytes fh ++ rest) ≡ done (fh, rest)
unfolding xdr_decode_fhandle
xdr_decode_fhandle-fh_bytes fh rest h = rw (
  append_assoc fh.handle (be32 fh.type) rest,
  get_bytes-append 8 fh.handle (be32 fh.type ++ rest) h.0,
  get_be32-be32 fh.type rest h.1,
)

module _ (x : Sunrpc) where
  open x use {
    quadlen, quadlen_lem, encode_array, encode_array_lem, decode_string_inplace, decode_string_long,
    decode_string_fits,
  }

  -- The zeros behind a string.
  abbrev pub pad : List ℕ → List ℕ
  pad s = replicate (4 * quadlen (length s) - length s) 0

  -- A string with its padding, without its length.
  abbrev pub padded : List ℕ → List ℕ
  padded s = s ++ pad s

  pub length-padded : (s : List ℕ) → length (padded s) ≡ 4 * quadlen (length s)
  length-padded s = omega (
    arith,
    quadlen_lem (length s),
    length-append s (replicate (4 * quadlen (length s) - length s) 0),
    length-replicate {A = ℕ} (4 * quadlen (length s) - length s) 0,
  )

  pub encode_array-padded : (s : List ℕ) → encode_array s (length s) ≡ be32 (length s) ++ padded s
  encode_array-padded s =
      rw (encode_array_lem s (length s) (omega arith), take_all (length s) s (omega arith))

  pub length-encode_array :
      (s : List ℕ) (n : ℕ) → n ≤ length s → length (encode_array s n) ≡ 4 + 4 * quadlen n
  length-encode_array s n h = rw (encode_array_lem s n h) (
      omega (
        arith,
        quadlen_lem n,
        length-be32 n,
        length-take n s,
        length-append (be32 n) (take n s ++ replicate (4 * quadlen n - n) 0),
        length-append (take n s) (replicate (4 * quadlen n - n) 0),
        length-replicate {A = ℕ} (4 * quadlen n - n) 0,
      ))

  pub take-padded : (s rest : List ℕ) → take (length s) (padded s ++ rest) ≡ s
  take-padded s rest =
      rw (append_assoc s (pad s) rest) (take-append (length s) s (pad s ++ rest) refl)

  pub drop-padded : (s rest : List ℕ) → drop (4 * quadlen (length s)) (padded s ++ rest) ≡ rest
  drop-padded s rest = drop-append (4 * quadlen (length s)) (padded s) rest (length-padded s)

  -- A string that was sent is found again if it is not too long.
  pub decode-encode_array :
      (s rest : List ℕ) (max : ℕ)
      → IsWord (length s)
      → decode_string_inplace (encode_array s (length s) ++ rest) max
        ≡ done (if ltb max (length s) then none else some (s, length s, rest))
  decode-encode_array s rest max h =
      rw (encode_array-padded s, append_assoc (be32 (length s)) (padded s) rest)
        (elim (Bool-cases (ltb max (length s))) [
          | inl long ↦
              rw long (decode_string_long (length s) max (padded s ++ rest) h (ground arith))
          | inr fits ↦ rw (
            fits,
            decode_string_fits (length s) max (padded s ++ rest) h (ground arith)
                (omega (arith, length-append (padded s) rest, length-padded s)),
            take-padded s rest,
            drop-padded s rest,
          )
        ])

  -- Of a longer string the first part is sent.
  pub encode_array-cut :
      (s : List ℕ) (n : ℕ) → n ≤ length s → encode_array s n ≡ be32 n ++ padded (take n s)
  encode_array-cut s n h =
      let exact : length (take n s) ≡ n = omega (arith, length-take n s) in
      encode_array_lem s n h
      ∙ ap (λ (m : ℕ). be32 n ++ (take n s ++ replicate (4 * quadlen m - m) 0)) (sym exact)
