-- ===== src/Readdir/Decode.antt =====
-- What the client's loop (vsnfsDir.c) makes of such a page.
use vsnfs.Base.{
  ℕ, refl, ltb_of_lt, ◌+◌, ◌^◌, ◌*◌, ◌≤◌, ◌≡◌, sym, ap, ◌∙◌, List, ◌++◌, append_assoc, Endian, done,
  length, take, drop, length-take, take_all, be32, get_be32-be32, IsWord, arith,
}
use vsnfs.Protocol.{VsnfsFh}
use vsnfs.Kernel.{Sunrpc}
use vsnfs.Handle.{handle_of}
use vsnfs.Handle.Decimal.{length-handle_of}
use vsnfs.Vfs.{Dirent}
use vsnfs.ClientXdr.{VsnfsEntry, ptr, peek_eof, vsnfs_decode_dirent, name_words}
use vsnfs.ServerXdr.{u32_max, cut}
use vsnfs.Wire.Bounds.{
  fh_bytes, xdr_decode_fhandle-fh_bytes, padded, encode_array-cut, drop-padded, take-padded,
  take-padded,
}
use vsnfs.Readdir.Encode.{entry_head}

module _ (x : Sunrpc) (e : Endian) (stack : List ℕ) (eight : length stack ≡ 8) where
  open x use {quadlen, encode_array, encode_array_lem}

  -- The handle that stands in an entry, and the entry as the client reads it.
  abbrev pub entry_fh : Dirent → VsnfsFh
  entry_fh d = record { handle = handle_of stack d.ino; type = d.d_type }

  abbrev pub decoded : Dirent → (offset eof : ℕ) → List ℕ → VsnfsEntry
  decoded d offset eof name = record {
    ino = d.ino;
    offset = offset;
    name = name;
    len = cut (length d.name);
    eof = eof;
    fh = entry_fh d;
  }

  -- The server cuts a name of more than 255 bytes.
  abbrev pub cut_name : Dirent → List ℕ
  cut_name d = take (cut (length d.name)) d.name

  -- The memory from an entry's name on.
  abbrev pub name_memory : Dirent → (offset : ℕ) → List ℕ → List ℕ
  name_memory d offset rest =
      padded x (cut_name d) ++ (fh_bytes (entry_fh d) ++ (be32 offset ++ rest))

  entry_shape :
      (d : Dirent) (rest : List ℕ)
      → entry_head x e stack d ++ rest
        ≡ be32 1
          ++ (be32 d.ino
              ++ (be32 (cut (length d.name))
                  ++ (padded x (cut_name d) ++ (fh_bytes (entry_fh d) ++ rest))))
  entry_shape d rest =
      rw
        (
          take_all 8 (handle_of stack d.ino) (omega (arith, length-handle_of stack d.ino eight)),
          encode_array-cut x d.name (cut (length d.name)) (ground arith),
        )
        (simp append_assoc)

  pub length-cut_name : (d : Dirent) → length (cut_name d) ≡ cut (length d.name)
  length-cut_name d = ground (arith, length-take (cut (length d.name)) d.name)

  pub take_name :
      (d : Dirent) (t : List ℕ)
      → take (cut (length d.name)) (padded x (cut_name d) ++ t) ≡ cut_name d
  take_name d t =
      ap (λ (m : ℕ). take m (padded x (cut_name d) ++ t)) (sym (length-cut_name d))
      ∙ take-padded x (cut_name d) t

  name_words-cut : (n : ℕ) → name_words x (cut n) ≡ quadlen (cut n)
  unfolding name_words
  name_words-cut n = rw (ltb_of_lt (cut n + 3) (2 ^ 32) (ground arith)) refl

  drop_name :
      (d : Dirent) (t : List ℕ)
      → drop (4 * name_words x (cut (length d.name))) (padded x (cut_name d) ++ t) ≡ t
  drop_name d t =
      ap (λ (m : ℕ). drop (4 * m) (padded x (cut_name d) ++ t)) (name_words-cut (length d.name))
      ∙ ap (λ (m : ℕ). drop (4 * quadlen m) (padded x (cut_name d) ++ t)) (sym (length-cut_name d))
      ∙ drop-padded x (cut_name d) t

  -- The decoder on an entry: every field as the server wrote it.
  pub decode_entry :
      (d : Dirent) (offset eof : ℕ) (rest : List ℕ) (entry : VsnfsEntry)
      → d.ino ≤ u32_max
      → IsWord d.d_type
      → offset ≤ u32_max
      → peek_eof x rest ≡ done eof
      → vsnfs_decode_dirent x (entry_head x e stack d ++ (be32 offset ++ rest)) entry
        ≡ done (ptr rest, decoded d offset eof (name_memory d offset rest))
  unfolding vsnfs_decode_dirent
  decode_entry d offset eof rest entry hi ht ho peek =
      let n = cut (length d.name) in
      let tail = be32 offset ++ rest in
      let at_fh = fh_bytes (entry_fh d) ++ tail in
      let at_name = padded x (cut_name d) ++ at_fh in
      rw (
        entry_shape d tail,
        get_be32-be32 1 (be32 d.ino ++ (be32 n ++ at_name)) (omega arith),
        get_be32-be32 d.ino (be32 n ++ at_name) (omega arith),
        get_be32-be32 n at_name (ground arith),
        drop_name d at_fh,
        xdr_decode_fhandle-fh_bytes (entry_fh d) tail (length-handle_of stack d.ino eight, ht),
        get_be32-be32 offset rest (omega arith),
        peek,
      )
