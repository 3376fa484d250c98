-- ===== src/Readdir/EndToEnd.antt =====
-- The whole `readdir`: the server's `vsnfsd_proc_readdir` and end mark (server/vsnfsproc.c,
-- server/vsnfsxdr.c), then the client's `vsnfs_readdir` (vsnfsDir.c) on that page.
use vsnfs.Base.{
  ℕ, suc, ◌/◌, ◌≤◌, ◌≡◌, refl, ap, ◌∙◌, List, [], ◌∷◌, ◌++◌, append_assoc, some, Bool, true, false,
  if◌then◌else◌, ℤ, pos, neg, is_neg, Endian, cpu_to_be32_zero, done, length, be32, IsWord, All,
  arith,
}
use vsnfs.Kernel.{Sunrpc, Strtoul}
use vsnfs.Protocol.{VsnfsStat, vsnfserr}
use vsnfs.Vfs.{Vfs, Dirent, fill_all}
use vsnfs.ClientXdr.{VsnfsEntry}
use vsnfs.Errno.Constants
use vsnfs.ServerXdr.{ReaddirArgs, ReaddirRes, SvcRqst, vsnfssvc_encode_readdirres}
use vsnfs.Server.{Table}
use vsnfs.Server.Files.{vsnfsd_open, vsnfsd_proc_readdir, filler, entry_words, start_res}
use vsnfs.Dir.{Desc, Filldir, Left, vsnfs_readdir}
use vsnfs.Readdir.Encode.{IsSmall, listing, total_words, fill_all-listing}
use vsnfs.Readdir.Loop.{
  IsSent, page, end_mark, is_ended, deliver, do_filldir_loop-page, length-le-page,
}

module _ (x : Sunrpc) (e : Endian) (stack : List ℕ) (eight : length stack ≡ 8) (flag : ℕ)
    (word : IsWord flag) (stale : List ℕ) {User : Type 0} (filldir : User → Filldir → ℤ × User)
    (accepts : (u : User) (ev : Filldir) → is_neg (filldir u ev).0 ≡ false) where
  -- The client on a page of entries whose numbers fit their words, with a `filldir` that never
  -- refuses: all entries are delivered in order. The call returns 0 and moves the file's position
  -- on exactly if the page has an entry and its flag says that it is complete; else it returns
  -- -EBADCOOKIE and the position stays 0.
  pub vsnfs_readdir-page :
      (ds : List Dirent) (user : User) (entry : VsnfsEntry)
      → All IsSent ds
      → (left : Left User) × (vsnfs_readdir x filldir true
            (pos 0, page x e stack eight flag word stale ds)
            0
            user
            entry
          ≡ done left)
        × (left.res ≡ (if is_ended ds flag then pos 0 else neg Constants.ebadcookie))
        × (left.user ≡ deliver filldir user ds)
        × (left.f_pos ≡ (if is_ended ds flag then 4096 else 0))
  unfolding vsnfs_readdir
  vsnfs_readdir-page ds user entry sent =
      let bytes = page x e stack eight flag word stale ds in
      let desc : Desc = record {
        ptr = some bytes;
        page = true;
        page_index = 0;
        target = 0;
        entry = record entry { eof = 0 };
      } in
      let (left, run, (res, delivered, at)) =
        do_filldir_loop-page x e stack eight flag word stale filldir 0 accepts ds
          (suc (length bytes)) user desc
          (omega (arith, length-le-page x e stack eight flag word stale ds)) sent in
      (
        record left {
          res = if is_neg left.res then left.res else pos 0;
          desc = record left.desc {
            page_index = 0;
            entry = record left.desc.entry { offset = 0; eof = 1 };
          };
        },
        rw run,
        res,
        delivered,
        at,
      )

-- Whether a list has an entry.
abbrev pub has_entry : List Dirent → Bool
has_entry [] = false
has_entry (d ∷ ds) = true

module _ (x : Sunrpc) (s : Strtoul) (e : Endian) {File : Type 0} (vfs : Vfs File ReaddirRes)
    (stack : List ℕ) where
  -- The server's side, for a directory that fits: the page holds all entries and the end mark.
  pub proc_readdir-page :
      (table : Table) (args : ReaddirArgs) (file : File) (rqstp : SvcRqst)
      → vsnfsd_open s vfs e true table args.fh ≡ done (vsnfserr e VsnfsStat.ok, some file)
      → is_neg (vfs.vfs_readdir file (filler x e stack) (start_res s vfs e args.count)).0 ≡ false
      → All IsSmall (vfs.entries file)
      → total_words x e stack (vfs.entries file) ≤ entry_words s vfs e args.count
      → (res : ReaddirRes) × (vsnfsd_proc_readdir s vfs e x stack true table args
          ≡ done (vsnfserr e VsnfsStat.ok, res))
        × ((vsnfssvc_encode_readdirres rqstp res).1
            ≡ listing x e stack (vfs.entries file) ++ (be32 0 ++ be32 1))
  unfolding vsnfsd_proc_readdir
  proc_readdir-page table args file rqstp opened reads small fits =
      let start = start_res s vfs e args.count in
      let final = fill_all (filler x e stack) (vfs.entries file) start in
      let (buffer, err, _) =
        fill_all-listing x e stack (vfs.entries file) (vsnfserr e VsnfsStat.ok)
          (entry_words s vfs e args.count) small fits in
      let ok_zero : vsnfserr e VsnfsStat.ok ≡ 0 = unfold vsnfserr in cpu_to_be32_zero e in
      (
        record final { count = length final.buffer / 4 },
        rw (opened, reads, vfs.vfs_readdir_lem file (filler x e stack) start, ok_zero),
        unfold vsnfssvc_encode_readdirres in rw (buffer, err, ok_zero),
      )

is_ended_one : (ds : List Dirent) → is_ended ds 1 ≡ has_entry ds
is_ended_one [] = refl
is_ended_one (d ∷ ds) = refl

All-IsSmall : (ds : List Dirent) → All IsSent ds → All IsSmall ds
All-IsSmall [] h = tt
All-IsSmall (d ∷ ds) (h, hs) = ((h.0, h.1), All-IsSmall ds hs)

module _ (x : Sunrpc) (s : Strtoul) (e : Endian) {File : Type 0} (vfs : Vfs File ReaddirRes)
    (stack : List ℕ) (eight : length stack ≡ 8) {User : Type 0}
    (filldir : User → Filldir → ℤ × User)
    (accepts : (u : User) (ev : Filldir) → is_neg (filldir u ev).0 ≡ false) where
  -- If the server opens the directory, `vfs_readdir` does not fail, the numbers of the entries
  -- fit their words and all entries fit the words that the client's count allows, then the server
  -- answers with status 0, and a client whose `filldir` never refuses gets every entry once and
  -- in order from the reply's page, whatever stands behind it. The client's call returns 0 if
  -- there is an entry, and -EBADCOOKIE for an empty directory.
  pub readdir_delivers :
      (table : Table) (args : ReaddirArgs) (file : File) (rqstp : SvcRqst) (stale : List ℕ)
      (user : User) (entry : VsnfsEntry)
      → vsnfsd_open s vfs e true table args.fh ≡ done (vsnfserr e VsnfsStat.ok, some file)
      → is_neg (vfs.vfs_readdir file (filler x e stack) (start_res s vfs e args.count)).0 ≡ false
      → All IsSent (vfs.entries file)
      → total_words x e stack (vfs.entries file) ≤ entry_words s vfs e args.count
      → (res : ReaddirRes) × (left : Left User) × (vsnfsd_proc_readdir s vfs e x stack true table
            args
          ≡ done (vsnfserr e VsnfsStat.ok, res))
        × (vsnfs_readdir x filldir true
              (pos 0, (vsnfssvc_encode_readdirres rqstp res).1 ++ stale)
              0
              user
              entry
            ≡ done left)
        × (left.user ≡ deliver filldir user (vfs.entries file))
        × (left.res ≡ (if has_entry (vfs.entries file) then pos 0 else neg Constants.ebadcookie))
  readdir_delivers table args file rqstp stale user entry opened reads sent fits =
      let ds = vfs.entries file in
      let (res, ran, bytes) =
        proc_readdir-page x s e vfs stack table args file rqstp opened reads (All-IsSmall ds sent)
          fits in
      let (left, read, value, delivered, _) =
        vsnfs_readdir-page x e stack eight 1 (omega arith) stale filldir accepts ds user entry
          sent in
      let same : (vsnfssvc_encode_readdirres rqstp res).1 ++ stale
          ≡ listing x e stack ds ++ end_mark 1 stale =
        ap (λ (t : List ℕ). t ++ stale) bytes
        ∙ append_assoc (listing x e stack ds) (be32 0 ++ be32 1) stale
        ∙ ap (◌++◌ (listing x e stack ds)) (append_assoc (be32 0) (be32 1) stale) in
      (res, left, ran, rw same read, delivered, rw (is_ended_one ds) at value)
