-- ===== src/Readdir/Loop.antt =====
-- The client's loop over a page of entries: `vsnfs_do_filldir` and `vsnfs_readdir` (vsnfsDir.c).
use vsnfs.Base.{
  ℕ, zero, suc, ◌≤◌, ◌<◌, ◌≡◌, refl, ap, ◌∙◌, List, [], ◌∷◌, ◌++◌, append_assoc, some, Bool, false,
  not, if◌then◌else◌, ◌==◌, Bool-cases, inl, inr, ℤ, pos, neg, is_neg, Endian, done, length, take,
  length-append, be32, length-be32, get_be32-be32, IsWord, All, arith,
}
use vsnfs.Kernel.{Sunrpc}
use vsnfs.Vfs.{Dirent}
use vsnfs.ClientXdr.{peek_eof, vsnfs_decode_dirent}
use vsnfs.Errno.Constants
use vsnfs.ServerXdr.{u32_max, cut}
use vsnfs.Dir.{Desc, Filldir, filldir_of, Left, dir_page_release, do_filldir_loop}
use vsnfs.Readdir.Encode.{offset_after, entry_head, listing}
use vsnfs.Readdir.Decode.{take_name, decoded, name_memory, decode_entry}

-- The numbers of an entry fit the words that they are sent in.
abbrev pub IsSent : Dirent → Type 0
IsSent d = (d.offset ≤ u32_max) × (d.ino ≤ u32_max) × IsWord d.d_type

-- The page's end: a zero word, the flag, and whatever the page held.
abbrev pub end_mark : (flag : ℕ) → List ℕ → List ℕ
end_mark flag stale = be32 0 ++ (be32 flag ++ stale)

-- Whether the client sees the end behind an entry that these follow.
abbrev pub eof_before : List Dirent → (flag : ℕ) → ℕ
eof_before [] flag = if flag == 0 then 0 else 1
eof_before (d ∷ ds) flag = 0

-- Whether the list is not empty and is marked as complete.
abbrev pub is_ended : List Dirent → (flag : ℕ) → Bool
is_ended [] flag = false
is_ended (d ∷ ds) flag = not (flag == 0)

abbrev pub event : Dirent → (offset : ℕ) → Filldir
event d offset = record {
  name = take (cut (length d.name)) d.name;
  len = cut (length d.name);
  offset = offset;
  fileid = d.ino;
  d_type = d.d_type;
}

-- What `filldir` makes of all the entries in their order.
unfoldable pub deliver : {User : Type 0} → (User → Filldir → ℤ × User) → User → List Dirent → User
deliver filldir user [] = user
deliver filldir user (d ∷ ds) = deliver filldir (filldir user (event d (offset_after ds))).1 ds

module _ (x : Sunrpc) (e : Endian) (stack : List ℕ) (eight : length stack ≡ 8) (flag : ℕ)
    (word : IsWord flag) (stale : List ℕ) where
  abbrev pub page : List Dirent → List ℕ
  page ds = listing x e stack ds ++ end_mark flag stale

  page-cons :
      (d : Dirent) (ds : List Dirent)
      → page (d ∷ ds) ≡ entry_head x e stack d ++ (be32 (offset_after ds) ++ page ds)
  page-cons d ds =
      append_assoc (entry_head x e stack d) (be32 (offset_after ds) ++ listing x e stack ds)
        (end_mark flag stale)
      ∙ ap (◌++◌ (entry_head x e stack d))
          (append_assoc (be32 (offset_after ds)) (listing x e stack ds) (end_mark flag stale))

  pub length-le-page : (ds : List Dirent) → length ds ≤ length (page ds)
  length-le-page [] = omega arith
  length-le-page (d ∷ ds) = omega (
    arith,
    ap length (page-cons d ds),
    length-append (entry_head x e stack d) (be32 (offset_after ds) ++ page ds),
    length-append (be32 (offset_after ds)) (page ds),
    length-be32 (offset_after ds),
    length-le-page ds,
  )

  peek_one : (rest : List ℕ) → peek_eof x (be32 1 ++ rest) ≡ done 0
  unfolding peek_eof
  peek_one rest = rw (get_be32-be32 1 rest (omega arith))

  peek_eof-page : (ds : List Dirent) → peek_eof x (page ds) ≡ done (eof_before ds flag)
  unfolding be32
  peek_eof-page [] =
      unfold peek_eof in
      rw (get_be32-be32 0 (be32 flag ++ stale) (omega arith), get_be32-be32 flag stale word)
  peek_eof-page (d ∷ ds) = ap (peek_eof x) (page-cons d ds) ∙ peek_one _

  filldir_of-decoded :
      (d : Dirent) (offset eof : ℕ) (rest : List ℕ)
      → filldir_of
          (decoded x e stack eight d offset eof (name_memory x e stack eight d offset rest))
        ≡ event d offset
  filldir_of-decoded d offset eof rest =
      ap
        (λ (name : List ℕ). record {
          name = name;
          len = cut (length d.name);
          offset = offset;
          fileid = d.ino;
          d_type = d.d_type;
        })
        (take_name x e stack eight d _)

  module _ {User : Type 0} (filldir : User → Filldir → ℤ × User) (f_pos : ℕ)
      (accepts : (u : User) (ev : Filldir) → is_neg (filldir u ev).0 ≡ false) where
    -- What the loop leaves behind the entries: the value that `vsnfs_readdir` makes of it, the
    -- deliveries, and the file's position.
    abbrev pub Ends : List Dirent → User → Left User → Type 0
    Ends ds user left =
        ((if is_neg left.res then left.res else pos 0)
          ≡ (if is_ended ds flag then pos 0 else neg Constants.ebadcookie))
        × (left.user ≡ deliver filldir user ds)
        × (left.f_pos ≡ (if is_ended ds flag then 4096 else f_pos))

    loop_end :
        (fuel : ℕ) (user : User) (desc : Desc)
        → (left : Left User) × (do_filldir_loop x filldir (suc fuel) f_pos user (page []) desc
            ≡ done left)
          × (left.res ≡ neg Constants.ebadcookie)
          × (left.user ≡ user)
          × (left.f_pos ≡ f_pos)
    unfolding do_filldir_loop vsnfs_decode_dirent
    loop_end fuel user desc = (
      record {
        res = neg Constants.ebadcookie;
        user = user;
        desc = record desc { entry = record desc.entry { eof = 1 } };
        f_pos = f_pos;
      },
      rw (get_be32-be32 0 (be32 flag ++ stale) (omega arith)),
      refl,
      refl,
      refl,
    )

    -- The descriptor behind an entry.
    abbrev at_entry : Dirent → List Dirent → Desc → Desc
    at_entry d ds desc = record desc {
      ptr = some (page ds);
      entry =
          decoded x e stack eight d (offset_after ds) (eof_before ds flag)
            (name_memory x e stack eight d (offset_after ds) (page ds));
    }

    abbrev after : User → Dirent → List Dirent → User
    after user d ds = (filldir user (event d (offset_after ds))).1

    loop_round :
        (fuel : ℕ) (user : User) (d : Dirent) (ds : List Dirent) (desc : Desc)
        → IsSent d
        → offset_after ds ≤ u32_max
        → do_filldir_loop x filldir (suc fuel) f_pos user (page (d ∷ ds)) desc ≡ (
            if eof_before ds flag == 1
            then done (record {
              res = (filldir user (event d (offset_after ds))).0;
              user = after user d ds;
              desc = dir_page_release (at_entry d ds desc);
              f_pos = 4096;
            })
            else do_filldir_loop x filldir fuel f_pos
                (after user d ds)
                (page ds)
                (at_entry d ds desc))
    unfolding do_filldir_loop
    loop_round fuel user d ds desc (ho, hi, ht) hn = rw (
      page-cons d ds,
      decode_entry x e stack eight d (offset_after ds) (eof_before ds flag) (page ds) desc.entry hi
          ht hn (peek_eof-page ds),
      filldir_of-decoded d (offset_after ds) (eof_before ds flag) (page ds),
      accepts user (event d (offset_after ds)),
    )

    pub do_filldir_loop-page :
        (ds : List Dirent) (fuel : ℕ) (user : User) (desc : Desc)
        → length ds < fuel
        → All IsSent ds
        → (left : Left User) × (do_filldir_loop x filldir fuel f_pos user (page ds) desc
            ≡ done left)
          × Ends ds user left
    unfolding deliver loop_end do_filldir_loop
    do_filldir_loop-page ds zero user desc h sent = absurd (omega arith)
    do_filldir_loop-page [] (suc fuel) user desc h sent =
        let (left, run, res, same, at) = loop_end fuel user desc in (left, run, (rw res, same, at))
    do_filldir_loop-page (d ∷ []) (suc zero) user desc h sent = absurd (omega arith)
    do_filldir_loop-page (d ∷ []) (suc (suc fuel)) user desc h sent =
        elim (Bool-cases (flag == 0)) [
          | inl open_end ↦
              let (left, run, res, same, at) =
                loop_end fuel (after user d []) (at_entry d [] desc) in
              (
                left,
                rw (loop_round (suc fuel) user d [] desc sent.0 (omega arith), open_end) run,
                (rw (res, open_end), same, rw open_end at),
              )
          | inr closed ↦ (
            record {
              res = (filldir user (event d u32_max)).0;
              user = after user d [];
              desc = dir_page_release (at_entry d [] desc);
              f_pos = 4096;
            },
            rw (loop_round (suc fuel) user d [] desc sent.0 (omega arith), closed),
            (rw (accepts user (event d u32_max), closed), refl, rw closed),
          )
        ]
    do_filldir_loop-page (d ∷ (d' ∷ ds)) (suc fuel) user desc h sent =
        let (left, run, ends) =
          do_filldir_loop-page (d' ∷ ds) fuel (after user d (d' ∷ ds)) (at_entry d (d' ∷ ds) desc)
            (omega arith) sent.1 in
        (left, rw (loop_round fuel user d (d' ∷ ds) desc sent.0 sent.1.0.0) run, ends)
