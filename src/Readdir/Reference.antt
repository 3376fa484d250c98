-- ===== src/Readdir/Reference.antt =====
-- The loop over a page, `vsnfs_do_filldir` (vsnfsDir.c), against a reader that first takes the whole
-- page apart and then hands the entries to `filldir`.
use vsnfs.Base.{
  ℕ, zero, suc, ◌≡◌, refl, List, none, some, ◌==◌, if◌then◌else◌, ℤ, is_neg, Run, done, oops, Fault,
  null_pointer, out_of_fuel, length, Bool-cases, Option-cases, ◌>>=◌, inl, inr,
}
use vsnfs.Kernel.{Sunrpc}
use vsnfs.Dir.{
  Desc, Filldir, filldir_of, Left, dir_decode, dir_page_release, fill_entry, do_filldir_loop,
  vsnfs_do_filldir,
}

-- A page taken apart: its entries in order, and how it ends.
pub data Parsed : Type 0 where
  entry : Desc → Parsed → Parsed
  last : Desc → Parsed
  refused : ℤ → Desc → Parsed
  broken : Fault → Parsed

-- What follows a decoded entry, which `rest` reads from where its descriptor points.
abbrev pub behind : (List ℕ → Desc → Parsed) → Desc → Parsed
behind rest desc =
    if desc.entry.eof == 1
    then last desc
    else entry desc (elim desc.ptr [ none ↦ broken null_pointer | some p ↦ rest p desc ])

abbrev pub parse_entry : (List ℕ → Desc → Parsed) → Run (ℤ × Desc) → Parsed
parse_entry rest (oops fault) = broken fault
parse_entry rest (done (status, desc)) =
    if is_neg status then refused status desc else behind rest desc

unfoldable pub parse_page : Sunrpc → (fuel : ℕ) → List ℕ → Desc → Parsed
parse_page x zero p desc = broken out_of_fuel
parse_page x (suc fuel) p desc = parse_entry (parse_page x fuel) (dir_decode x p desc)

module _ {User : Type 0} (filldir : User → Filldir → ℤ × User) (f_pos : ℕ) where
  -- Each entry goes to `filldir`, up to the first that it refuses.
  unfoldable pub feed : User → Parsed → Run (Left User)
  feed user (broken fault) = oops fault
  feed user (refused status desc) =
      done (record { res = status; user = user; desc = desc; f_pos = f_pos })
  feed user (last desc) =
      let (res, user') = filldir user (filldir_of desc.entry) in
      if is_neg res
      then done (record { res = res; user = user'; desc = desc; f_pos = f_pos })
      else done (record { res = res; user = user'; desc = dir_page_release desc; f_pos = 4096 })
  feed user (entry desc rest) =
      let fed = feed (filldir user (filldir_of desc.entry)).1 rest in
      let (res, user') = filldir user (filldir_of desc.entry) in
      if is_neg res
      then done (record { res = res; user = user'; desc = desc; f_pos = f_pos })
      else fed

  -- One round, for any reader of the rest.
  round-feed :
      (x : Sunrpc) (go : User → List ℕ → Desc → Run (Left User)) (rest : List ℕ → Desc → Parsed)
      → ((user : User) (p : List ℕ) (desc : Desc) → go user p desc ≡ feed user (rest p desc))
      → (user : User) (decoded : Run (ℤ × Desc))
      → (decoded >>= λ d. fill_entry x filldir f_pos user d (λ user' desc'. elim desc'.ptr [
        | none ↦ oops null_pointer
        | some p' ↦ go user' p' desc'
      ]))
        ≡ feed user (parse_entry rest decoded)
  unfolding feed
  round-feed x go rest same user (oops fault) = refl
  round-feed x go rest same user (done (status, desc)) = elim (Bool-cases (is_neg status)) [
    | inl bad ↦ rw bad refl
    | inr good ↦ elim (Bool-cases (desc.entry.eof == 1)) [
      | inl at_end ↦ rw (good, at_end) refl
      | inr more ↦ elim (Option-cases desc.ptr) [
        | inl no_pointer ↦ rw (good, more, no_pointer) refl
        | inr (p', there) ↦
            rw (good, more, there, same (filldir user (filldir_of desc.entry)).1 p' desc) refl
      ]
    ]
  ]

  module _ (x : Sunrpc) where
    do_filldir_loop-feed :
        (fuel : ℕ) (user : User) (p : List ℕ) (desc : Desc)
        → do_filldir_loop x filldir fuel f_pos user p desc ≡ feed user (parse_page x fuel p desc)
    unfolding do_filldir_loop parse_page feed
    do_filldir_loop-feed zero user p desc = refl
    do_filldir_loop-feed (suc fuel) user p desc =
        round-feed x (do_filldir_loop x filldir fuel f_pos) (parse_page x fuel)
          (do_filldir_loop-feed fuel) user (dir_decode x p desc)

    -- The client's loop over any page, from any descriptor, does what a reader does that first takes
    -- the whole page apart, without the user, and then hands the entries to `filldir` in order, up to
    -- the first that it refuses: the value, the user's buffer, the descriptor and the file's position
    -- are the same, and so are the faults.
    pub vsnfs_do_filldir-feed :
        (user : User) (p : List ℕ) (desc : Desc)
        → vsnfs_do_filldir x filldir f_pos user p desc
          ≡ feed user (parse_page x (suc (length p)) p desc)
    unfolding vsnfs_do_filldir
    vsnfs_do_filldir-feed user p desc = do_filldir_loop-feed (suc (length p)) user p desc
