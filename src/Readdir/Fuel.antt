-- ===== src/Readdir/Fuel.antt =====
-- The rounds of the client's loop over a page, whatever the page holds: vsnfsDir.c, vsnfsXdr.c.
use vsnfs.Base.{
  ℕ, zero, suc, ◌*◌, ◌≤◌, ◌<◌, ◌≡◌, ◌≢◌, ◌⊎◌, refl, List, [], ◌∷◌, some, Bool, true, ◌==◌, ℤ, pos,
  is_neg, Run, done, oops, out_of_fuel, null_pointer, out_of_bounds, ◌>>=◌, get_be32, get_bytes,
  length, drop, length-drop, arith, inl, inr, Bool-cases, leb,
}
use vsnfs.Kernel.{Sunrpc}
use vsnfs.Protocol.{VsnfsFh, fhsize}
use vsnfs.ClientXdr.{
  VsnfsEntry, Ptr, ptr, err_ptr, xdr_decode_fhandle, peek_eof, vsnfs_decode_dirent, name_words,
}
use vsnfs.Dir.{Desc, Filldir, Left, dir_decode, filldir_of, do_filldir_loop, vsnfs_readdir}

-- A run whose result has a property, or that faults, but not for want of fuel.
abbrev Fueled : {A : Type 0} → (A → Type 0) → Run A → Type 0
Fueled P (done a) = P a
Fueled P (oops null_pointer) = Unit {0}
Fueled P (oops out_of_bounds) = Unit {0}
Fueled P (oops out_of_fuel) = ⊥

Fueled->>= :
    {A B : Type 0} (P : A → Type 0) (Q : B → Type 0) (m : Run A) (f : A → Run B)
    → Fueled P m
    → ((a : A) → P a → Fueled Q (f a))
    → Fueled Q (m >>= f)
Fueled->>= P Q (done a) f h k = k a h
Fueled->>= P Q (oops null_pointer) f h k = tt
Fueled->>= P Q (oops out_of_bounds) f h k = tt
Fueled->>= P Q (oops out_of_fuel) f h k = elim h [ ]

Fueled-ne : {A : Type 0} (P : A → Type 0) (m : Run A) → Fueled P m → m ≢ oops out_of_fuel
Fueled-ne P (done a) h e = cc
Fueled-ne P (oops null_pointer) h e = cc
Fueled-ne P (oops out_of_bounds) h e = cc
Fueled-ne P (oops out_of_fuel) h e = h

get_be32-Fueled : (p : List ℕ) → Fueled (λ (r : ℕ × List ℕ). length r.1 < length p) (get_be32 p)
unfolding get_be32
get_be32-Fueled [] = tt
get_be32-Fueled (a ∷ []) = tt
get_be32-Fueled (a ∷ b ∷ []) = tt
get_be32-Fueled (a ∷ b ∷ c ∷ []) = tt
get_be32-Fueled (a ∷ b ∷ c ∷ d ∷ rest) = omega arith

get_bytes-Fueled :
    (n : ℕ) (p : List ℕ) → Fueled (λ (r : List ℕ × List ℕ). length r.1 ≤ length p) (get_bytes n p)
unfolding get_bytes
get_bytes-Fueled n p = elim (Bool-cases (leb n (length p))) [
  | inl h ↦ rw h (omega (arith, length-drop n p))
  | inr h ↦ rw h tt
]

xdr_decode_fhandle-Fueled :
    (p : List ℕ) → Fueled (λ (r : VsnfsFh × List ℕ). length r.1 < length p) (xdr_decode_fhandle p)
unfolding xdr_decode_fhandle
xdr_decode_fhandle-Fueled p =
    Fueled->>= _ _ (get_bytes fhsize p) _ (get_bytes-Fueled fhsize p) (λ (b, q) small.
      Fueled->>= _ _ (get_be32 q) _ (get_be32-Fueled q) (λ (t, q') smaller. omega arith))

-- What the decoder's pointer says of the memory behind it.
abbrev IsShorter : ℕ → Ptr × VsnfsEntry → Type 0
IsShorter n (ptr q, entry) = length q < n
IsShorter n (err_ptr err, entry) = is_neg err ≡ true

module _ (x : Sunrpc) where
  peek_eof-Fueled : (p : List ℕ) → Fueled (λ (eof : ℕ). Unit {0}) (peek_eof x p)
  unfolding peek_eof
  peek_eof-Fueled p = Fueled->>= _ _ (get_be32 p) _ (get_be32-Fueled p) (λ (more, q) small.
      elim (Bool-cases (more == 0)) [
        | inl h ↦ rw h (Fueled->>= _ _ (get_be32 q) _ (get_be32-Fueled q) (λ r s. tt))
        | inr h ↦ rw h tt
      ])

  vsnfs_decode_dirent-Fueled :
      (p : List ℕ) (entry : VsnfsEntry)
      → Fueled (IsShorter (length p)) (vsnfs_decode_dirent x p entry)
  unfolding vsnfs_decode_dirent
  vsnfs_decode_dirent-Fueled p entry =
      Fueled->>= _ _ (get_be32 p) _ (get_be32-Fueled p) (λ (present, p1) h1.
        elim (Bool-cases (present == 0)) [
          | inl h ↦ rw h refl
          | inr h ↦ rw h (
              Fueled->>= _ _ (get_be32 p1) _ (get_be32-Fueled p1) (λ (ino, p2) h2.
                Fueled->>= _ _ (get_be32 p2) _ (get_be32-Fueled p2) (λ (len, p3) h3.
                  Fueled->>= _ _ (xdr_decode_fhandle (drop (4 * name_words x len) p3)) _
                    (xdr_decode_fhandle-Fueled (drop (4 * name_words x len) p3))
                    (λ (fh, p4) h4.
                      Fueled->>= _ _ (get_be32 p4) _ (get_be32-Fueled p4) (λ (offset, p5) h5.
                        Fueled->>= _ _ (peek_eof x p5) _ (peek_eof-Fueled p5)
                          (λ eof h6. omega (arith, length-drop (4 * name_words x len) p3)))))))
        ])

  -- A decoding that failed, or one with a pointer that moved on.
  abbrev MovesOn : ℕ → ℤ × Desc → Type 0
  MovesOn n (status, desc) =
      (is_neg status ≡ true) ⊎ ((q : List ℕ) × (desc.ptr ≡ some q) × (length q < n))

  dir_decode-Fueled : (p : List ℕ) (desc : Desc) → Fueled (MovesOn (length p)) (dir_decode x p desc)
  unfolding dir_decode
  dir_decode-Fueled p desc =
      Fueled->>= (IsShorter (length p)) _ (vsnfs_decode_dirent x p desc.entry) _
        (vsnfs_decode_dirent-Fueled p desc.entry) go
    where
      go :
          (r : Ptr × VsnfsEntry)
          → IsShorter (length p) r
          → Fueled (MovesOn (length p)) (
              done (elim r.0 [
                | err_ptr err ↦ (err, record desc { entry = r.1 })
                | ptr next ↦ (pos 0, record desc { ptr = some next; entry = r.1 })
              ]))
      go (ptr q, entry) h = inr (q, refl, h)
      go (err_ptr err, entry) h = inl h

  module _ {User : Type 0} (filldir : User → Filldir → ℤ × User) where
    do_filldir_loop-Fueled :
        (fuel f_pos : ℕ) (user : User) (p : List ℕ) (desc : Desc)
        → length p < fuel
        → Fueled (λ (left : Left User). Unit {0}) (do_filldir_loop x filldir fuel f_pos user p desc)
    unfolding do_filldir_loop
    do_filldir_loop-Fueled zero f_pos user p desc h = omega arith
    do_filldir_loop-Fueled (suc fuel) f_pos user p desc h =
        Fueled->>= (MovesOn (length p)) _ (dir_decode x p desc) _ (dir_decode-Fueled p desc)
          (λ (status, desc') moved. elim moved [
            | inl failed ↦ rw failed tt
            | inr (q, at, small) ↦ elim (Bool-cases (is_neg status)) [
              | inl failed ↦ rw failed tt
              | inr fine ↦ elim (Bool-cases (is_neg (filldir user (filldir_of desc'.entry)).0)) [
                | inl refused ↦ rw (fine, refused) tt
                | inr taken ↦ elim (Bool-cases (desc'.entry.eof == 1)) [
                  | inl ended ↦ rw (fine, taken, ended) tt
                  | inr on ↦
                      rw (fine, taken, on, at)
                        (do_filldir_loop-Fueled fuel f_pos (filldir user (filldir_of desc'.entry)).1
                          q desc' (omega arith))
                ]
              ]
            ]
          ])

    -- Whatever the reply's status and page hold and whatever `filldir` answers, the client's
    -- `readdir` ends within its rounds: it returns, or it faults on an address.
    pub vsnfs_readdir-ne-out_of_fuel :
        (page : Bool) (reply : ℤ × List ℕ) (f_pos : ℕ) (user : User) (stack : VsnfsEntry)
        → vsnfs_readdir x filldir page reply f_pos user stack ≢ oops out_of_fuel
    unfolding vsnfs_readdir
    vsnfs_readdir-ne-out_of_fuel page (status, bytes) f_pos user stack =
        Fueled-ne (λ (left : Left User). Unit {0})
          (vsnfs_readdir x filldir page (status, bytes) f_pos user stack)
          (elim (Bool-cases (f_pos == 0)) [
            | inr later ↦ rw later tt
            | inl first ↦ elim (Bool-cases page) [
              | inr none_left ↦ rw (first, none_left) tt
              | inl there ↦ elim (Bool-cases (is_neg status)) [
                | inl failed ↦ rw (first, there, failed) tt
                | inr fine ↦
                    rw (first, there, fine)
                      (Fueled->>= (λ (left : Left User). Unit {0}) (λ (left : Left User). Unit {0})
                        _ _
                        (Fueled->>= (λ (left : Left User). Unit {0})
                          (λ (left : Left User). Unit {0}) _ _
                          (do_filldir_loop-Fueled (suc (length bytes)) f_pos user bytes _
                            (omega arith))
                          (λ left h. tt))
                        (λ left h. tt))
              ]
            ]
          ])
