-- ===== src/Readdir/Encode.antt =====
-- What the calls of `vsnfssvc_encode_entry` (server/vsnfsxdr.c) leave in the page for a directory.
use vsnfs.Base.{
  ℕ, ◌+◌, ◌-◌, ◌≤◌, ◌≡◌, refl, sym, ap, ◌∙◌, List, [], ◌∷◌, ◌++◌, append-nil, append_assoc, none,
  some, pos, Endian, length, take, length-append, take-append, drop_all, be32, length-be32, All,
  arith,
}
use vsnfs.Protocol.{fhsize}
use vsnfs.Kernel.{Sunrpc}
use vsnfs.Handle.{handle_of}
use vsnfs.Vfs.{Dirent, fill_all}
use vsnfs.ServerXdr.{ReaddirRes, u32_max, cut, set_be32, vsnfssvc_encode_entry}
use vsnfs.Server.Files.{filler}

-- An entry whose numbers fit a word.
abbrev pub IsSmall : Dirent → Type 0
IsSmall d = (d.offset ≤ u32_max) × (d.ino ≤ u32_max)

-- The offset in an entry is that of the next one, if there is a next one.
abbrev pub offset_after : List Dirent → ℕ
offset_after [] = u32_max
offset_after (d ∷ ds) = d.offset

set_be32-end :
    (page : List ℕ) (v w : ℕ) → set_be32 (page ++ be32 v) (length page) w ≡ page ++ be32 w
unfolding set_be32
set_be32-end page v w = rw (take-append (length page) page (be32 v) refl) (
    ap (λ (t : List ℕ). page ++ (be32 w ++ t))
      (drop_all (length page + 4) (page ++ be32 v)
        (omega (arith, length-append page (be32 v), length-be32 v)))
    ∙ ap (◌++◌ page) (append-nil (be32 w)))

module _ (x : Sunrpc) (e : Endian) (stack : List ℕ) where
  open x use {quadlen, quadlen_lem, encode_array}

  -- An entry without its offset.
  abbrev pub entry_head : Dirent → List ℕ
  entry_head d =
      be32 1
      ++ (be32 d.ino
          ++ (encode_array d.name (cut (length d.name))
              ++ (take fhsize (handle_of stack d.ino) ++ be32 d.d_type)))

  abbrev pub listing : List Dirent → List ℕ
  listing [] = []
  listing (d ∷ ds) = entry_head d ++ (be32 (offset_after ds) ++ listing ds)

  -- The words that an entry takes.
  abbrev pub words : Dirent → ℕ
  words d = quadlen (cut (length d.name)) + (5 + quadlen fhsize)

  abbrev pub total_words : List Dirent → ℕ
  total_words [] = 0
  total_words (d ∷ ds) = words d + total_words ds

  -- A filler's state behind an entry: the last word is its offset, not known yet.
  abbrev pub behind : List ℕ → (count err buflen : ℕ) → ReaddirRes
  behind page count err buflen = record {
    count = count;
    err = err;
    buffer = page ++ be32 u32_max;
    buflen = buflen;
    offset = some (length page);
  }

  -- One call, where the entry fits.
  filler-behind :
      (d : Dirent) (page : List ℕ) (count err buflen : ℕ)
      → IsSmall d
      → words d ≤ buflen
      → filler x e stack d (behind page count err buflen)
        ≡ (pos 0, behind ((page ++ be32 d.offset) ++ entry_head d) count err (buflen - words d))
  unfolding filler vsnfssvc_encode_entry
  filler-behind d page count err buflen small fits =
      ground (arith, set_be32-end page u32_max d.offset)

  filler-start :
      (d : Dirent) (err buflen : ℕ)
      → IsSmall d
      → words d ≤ buflen
      → filler x e stack d
          (record { count = 0; err = err; buffer = []; buflen = buflen; offset = none })
        ≡ (pos 0, behind (entry_head d) 0 err (buflen - words d))
  unfolding filler vsnfssvc_encode_entry
  filler-start d err buflen small fits = ground arith

  -- What is left when all entries were taken.
  abbrev Filled : List Dirent → List ℕ → (err buflen : ℕ) → ReaddirRes → Type 0
  Filled ds page err buflen res =
      (res.buffer ≡ page ++ (be32 (offset_after ds) ++ listing ds))
      × (res.err ≡ err)
      × (res.buflen + total_words ds ≡ buflen)

  fill-behind :
      (ds : List Dirent) (page : List ℕ) (count err buflen : ℕ)
      → All IsSmall ds
      → total_words ds ≤ buflen
      → Filled ds page err buflen (fill_all (filler x e stack) ds (behind page count err buflen))
  unfolding fill_all
  fill-behind [] page count err buflen small fits =
      (ap (◌++◌ page) (sym (append-nil (be32 u32_max))), refl, omega arith)
  fill-behind (d ∷ ds) page count err buflen (here, rest) fits =
      let (buffer, kept, room) =
        fill-behind ds ((page ++ be32 d.offset) ++ entry_head d) count err (buflen - words d) rest
          (omega arith) in
      rw (filler-behind d page count err buflen here (omega arith)) (
        buffer
            ∙ append_assoc (page ++ be32 d.offset) (entry_head d)
                (be32 (offset_after ds) ++ listing ds)
            ∙ append_assoc page (be32 d.offset) (listing (d ∷ ds)),
        kept,
        omega arith,
      )

  -- From an empty page: the entries one behind the other, the words counted, and no error noted.
  pub fill_all-listing :
      (ds : List Dirent) (err buflen : ℕ)
      → All IsSmall ds
      → total_words ds ≤ buflen
      → let res =
          fill_all
            (filler x e stack)
            ds
            (record { count = 0; err = err; buffer = []; buflen = buflen; offset = none }) in
        (res.buffer ≡ listing ds) × (res.err ≡ err) × (res.buflen + total_words ds ≡ buflen)
  unfolding fill_all
  fill_all-listing [] err buflen small fits = (refl, refl, omega arith)
  fill_all-listing (d ∷ ds) err buflen (here, rest) fits =
      let (buffer, kept, room) =
        fill-behind ds (entry_head d) 0 err (buflen - words d) rest (omega arith) in
      rw (filler-start d err buflen here (omega arith)) (buffer, kept, omega arith)
