-- ===== src/Readdir/Room.antt =====
-- The page of a `readdir` reply is never overrun, whatever the directory holds
-- (server/vsnfsproc.c, server/vsnfsxdr.c).
use vsnfs.Base.{
  ℕ, ◌+◌, ◌*◌, ◌≤◌, ◌≡◌, refl, sym, ap, List, [], ◌∷◌, ◌++◌, Option, none, some, Bool,
  if◌then◌else◌, ◌==◌, Bool-cases, >>=-eq-done, done-injective, subst, inl, inr, eqb, pos, Endian,
  done, length, take, drop, length-append, length-take, length-drop, be32, length-be32, arith,
}
use Prim.Native.Nat.{max}
use vsnfs.Protocol.{fhsize}
use vsnfs.Kernel.{Sunrpc, Strtoul, page_size}
use vsnfs.Handle.{handle_of}
use vsnfs.Vfs.{Vfs, Dirent, fill_all}
use vsnfs.ServerXdr.{
  ReaddirArgs, ReaddirRes, SvcRqst, u32_max, cut, set_be32, fill_offset, vsnfssvc_encode_entry,
  vsnfssvc_encode_readdirres,
}
use vsnfs.Wire.Bounds.{length-encode_array}
use vsnfs.Server.{Table}
use vsnfs.Server.Files.{
  filler, vsnfsd_open, vsnfsd_readdir, readdir_file, entry_words, start_res, vsnfsd_proc_readdir,
}

-- The place of the last offset is in the bytes written.
abbrev pub OffsetFits : ℕ → Option ℕ → Type 0
OffsetFits n none = Unit {0}
OffsetFits n (some at) = at + 4 ≤ n

-- The bytes written and the words left are within `room` bytes.
abbrev pub Fits : (room : ℕ) → ReaddirRes → Type 0
Fits room res =
    (length res.buffer + 4 * res.buflen ≤ room) × OffsetFits (length res.buffer) res.offset

length-set_be32 :
    (page : List ℕ) (at v : ℕ) → at + 4 ≤ length page → length (set_be32 page at v) ≡ length page
unfolding set_be32
length-set_be32 page at v h = omega (
  arith,
  length-append (take at page) (be32 v ++ drop (at + 4) page),
  length-append (be32 v) (drop (at + 4) page),
  length-take at page,
  length-drop (at + 4) page,
  length-be32 v,
)

fill_offset-Fits :
    (room : ℕ) (buffer : List ℕ) (count err buflen : ℕ) (at : Option ℕ) (offset : ℕ)
    → OffsetFits (length buffer) at
    → length
        (fill_offset
          (record { count = count; err = err; buffer = buffer; buflen = buflen; offset = at })
          offset).buffer
      ≡ length buffer
fill_offset-Fits room buffer count err buflen none offset h = refl
fill_offset-Fits room buffer count err buflen (some at) offset h =
    length-set_be32 buffer at offset h

module _ (x : Sunrpc) (e : Endian) (stack : List ℕ) where
  open x use {quadlen, quadlen_lem, encode_array}

  length-entry :
      (page name handle : List ℕ) (n ino d_type : ℕ)
      → n ≤ length name
      → length (
          page
          ++ (be32 1 ++ (be32 ino ++ (encode_array name n ++ (take fhsize handle ++ be32 d_type)))))
        ≤ length page + 24 + 4 * quadlen n
  length-entry page name handle n ino d_type h =
      let type = be32 d_type in
      let fh = take fhsize handle ++ type in
      let body = encode_array name n ++ fh in
      omega (
        arith,
        length-append page (be32 1 ++ (be32 ino ++ body)),
        length-append (be32 1) (be32 ino ++ body),
        length-append (be32 ino) body,
        length-append (encode_array name n) fh,
        length-append (take fhsize handle) type,
        length-encode_array x name n h,
        length-take fhsize handle,
        length-be32 1,
        length-be32 ino,
        length-be32 d_type,
      )

  filler-Fits :
      (room : ℕ) (d : Dirent) (res : ReaddirRes)
      → Fits room res
      → Fits room (filler x e stack d res).1
  unfolding filler vsnfssvc_encode_entry
  filler-Fits room d res h =
      let filled = fill_offset res d.offset in
      let same : length filled.buffer ≡ length res.buffer =
        fill_offset-Fits room res.buffer res.count res.err res.buflen res.offset d.offset h.1 in
      let n = cut (length d.name) in
      let p =
        filled.buffer
        ++ (be32 1
            ++ (be32 d.ino
                ++ (encode_array d.name n
                    ++ (take fhsize (handle_of stack d.ino) ++ be32 d.d_type)))) in
      let grown : length p ≤ length filled.buffer + 24 + 4 * quadlen n =
        length-entry filled.buffer d.name (handle_of stack d.ino) n d.ino d.d_type (ground arith) in
      ground
        (arith, quadlen_lem 8, length-append p (be32 u32_max), length-be32 u32_max, same, grown)

  fill_all-Fits :
      (room : ℕ) (ds : List Dirent) (res : ReaddirRes)
      → Fits room res
      → Fits room (fill_all (filler x e stack) ds res)
  unfolding fill_all
  fill_all-Fits room [] res h = h
  fill_all-Fits room (d ∷ ds) res h =
      let once = filler-Fits room d res h in
      elim (Bool-cases (eqb (filler x e stack d res).0 (pos 0))) [
        | inl goes_on ↦ rw goes_on (fill_all-Fits room ds (filler x e stack d res).1 once)
        | inr stops ↦ rw stops once
      ]

  module _ {File : Type 0} (s : Strtoul) (vfs : Vfs File ReaddirRes) where
    readdir_file-Fits :
        (room : ℕ) (res : ReaddirRes) (opened : ℕ × Option File)
        → Fits room res
        → Fits room (readdir_file s vfs e x stack res opened).1
    unfolding readdir_file
    readdir_file-Fits room res (err, none) h = h
    readdir_file-Fits room res (err, some file) h =
        rw (vfs.vfs_readdir_lem file (filler x e stack) res)
          (fill_all-Fits room (vfs.entries file) res h)

    -- If the count is at most a page and the procedure returns, then whatever the directory holds
    -- and whichever status it returns, the entries and the end mark together take at most the
    -- bytes that the client asked for (eight, if it asked for fewer), and `page_len` is the
    -- number of the bytes written.
    pub readdir_room :
        (alloc : Bool) (table : Table) (args : ReaddirArgs) (rqstp : SvcRqst) (status : ℕ)
        (res : ReaddirRes)
        → args.count ≤ page_size
        → vsnfsd_proc_readdir s vfs e x stack alloc table args ≡ done (status, res)
        → (length (vsnfssvc_encode_readdirres rqstp res).1 ≤ max 8 args.count)
          × ((vsnfssvc_encode_readdirres rqstp res).0.page_len
              ≡ length (vsnfssvc_encode_readdirres rqstp res).1)
    unfolding vsnfsd_proc_readdir
    readdir_room alloc table args rqstp status res small ran =
        let start = start_res s vfs e args.count in
        let (p, read, out) =
          >>=-eq-done (vsnfsd_readdir s vfs e x stack alloc table args.fh start) _ ran in
        let (opened, _, filled) = >>=-eq-done (vsnfsd_open s vfs e alloc table args.fh) _ read in
        let fits : Fits (4 * entry_words s vfs e args.count) p.1 =
          subst (λ (q : ℕ × ReaddirRes). Fits (4 * entry_words s vfs e args.count) q.1)
            (done-injective filled)
            (readdir_file-Fits (4 * entry_words s vfs e args.count) start opened
              (omega arith, tt)) in
        let same : length res.buffer ≡ length p.1.buffer =
          ap (λ (q : ℕ × ReaddirRes). length q.1.buffer) (sym (done-injective out)) in
        let mark = be32 0 ++ be32 (if res.err == 0 then 1 else 0) in
        let total : length (res.buffer ++ mark) ≡ length p.1.buffer + 8 = omega (
          arith,
          length-append res.buffer mark,
          length-append (be32 0) (be32 (if res.err == 0 then 1 else 0)),
          length-be32 0,
          length-be32 (if res.err == 0 then 1 else 0),
        ) in
        unfold vsnfssvc_encode_readdirres in (omega arith, omega arith)
