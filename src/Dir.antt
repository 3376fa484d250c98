-- ===== src/Dir.antt =====
-- vsnfsDir.c: reading a directory on the client. The kernel's `filldir` and the call of the server
-- are parameters.
use vsnfs.Base.{
  ℕ, zero, suc, List, Option, none, some, Bool, true, false, ◌==◌, if◌then◌else◌, ℤ, pos, neg,
  is_neg, Run, done, oops, null_pointer, out_of_fuel, ◌>>=◌, length, take,
}
use vsnfs.Kernel.{Sunrpc}
use vsnfs.ClientXdr.{VsnfsEntry, ptr, err_ptr, vsnfs_decode_dirent}
use vsnfs.Errno.Constants

-- `vsnfs_readdir_descriptor_t`: the memory from `ptr` on, none if the pointer is null, and whether
-- the page is held. `file` and `decode` do not change.
pub record Desc : Type 0 where
  pub ptr : Option (List ℕ)
  pub page : Bool
  pub page_index : ℕ
  pub target : ℕ
  pub entry : VsnfsEntry

-- The arguments of one call of `filldir`.
pub record Filldir : Type 0 where
  pub name : List ℕ
  pub len : ℕ
  pub offset : ℕ
  pub fileid : ℕ
  pub d_type : ℕ

abbrev pub filldir_of : VsnfsEntry → Filldir
filldir_of entry = record {
  name = take entry.len entry.name;
  len = entry.len;
  offset = entry.offset;
  fileid = entry.ino;
  d_type = entry.fh.type;
}

-- 0, or the errno of the pointer that the decoder returned.
unfoldable pub dir_decode : Sunrpc → List ℕ → Desc → Run (ℤ × Desc)
dir_decode x p desc = do
  (p', entry) ← vsnfs_decode_dirent x p desc.entry
  done (elim p' [
    | err_ptr err ↦ (err, record desc { entry = entry })
    | ptr next ↦ (pos 0, record desc { ptr = some next; entry = entry })
  ])

abbrev pub dir_page_release : Desc → Desc
dir_page_release desc = record desc { page = false; ptr = none }

-- What a call of `readdir` leaves: its value, the user's buffer, the descriptor, the file's position.
pub record Left (User : Type 0) : Type 0 where
  pub res : ℤ
  pub user : User
  pub desc : Desc
  pub f_pos : ℕ

module _ {User : Type 0} (x : Sunrpc) (filldir : User → Filldir → ℤ × User) where
  -- What follows the decoding of an entry: out on an error, out with the page released after the
  -- last entry, or the next round, which `more` stands for.
  abbrev pub fill_entry :
      (f_pos : ℕ) → User → ℤ × Desc → (User → Desc → Run (Left User)) → Run (Left User)
  fill_entry f_pos user (status, desc) more =
      let (res, user') = filldir user (filldir_of desc.entry) in
      if is_neg status
      then done (record { res = status; user = user; desc = desc; f_pos = f_pos })
      else if is_neg res
      then done (record { res = res; user = user'; desc = desc; f_pos = f_pos })
      else if desc.entry.eof == 1
      then done (record { res = res; user = user'; desc = dir_page_release desc; f_pos = 4096 })
      else more user' desc

  -- The loop over the page. The pointer is passed on by the descriptor.
  unfoldable pub do_filldir_loop : (fuel f_pos : ℕ) → User → List ℕ → Desc → Run (Left User)
  unfolding dir_decode
  do_filldir_loop zero f_pos user p desc = oops out_of_fuel
  do_filldir_loop (suc fuel) f_pos user p desc = do
    decoded ← dir_decode x p desc
    fill_entry f_pos user decoded (λ user' desc'. elim desc'.ptr [
      | none ↦ oops null_pointer
      | some p' ↦ do_filldir_loop fuel f_pos user' p' desc'
    ])

  -- Each round takes a word of the page at least, so its length is fuel enough.
  unfoldable pub vsnfs_do_filldir : (f_pos : ℕ) → User → List ℕ → Desc → Run (Left User)
  unfolding do_filldir_loop
  vsnfs_do_filldir f_pos user p desc = do_filldir_loop (suc (length p)) f_pos user p desc

  -- `page` is what `alloc_page` returned, and `reply` the status and the page of the call.
  unfoldable pub simple_readdir :
      (page : Bool) → (reply : ℤ × List ℕ) → (f_pos : ℕ) → User → Desc → Run (Left User)
  unfolding vsnfs_do_filldir
  simple_readdir page (status, bytes) f_pos user desc =
      if page
      then (if is_neg status
          then done (record { res = status; user = user; desc = desc; f_pos = f_pos })
          else (do
            let kmapped : Desc = record desc { page = true; ptr = some bytes }
            left ← vsnfs_do_filldir f_pos user bytes kmapped
            let entry : VsnfsEntry = record left.desc.entry { offset = 0; eof = 1 }
            done (record left { desc = record left.desc { page_index = 0; entry = entry } })))
      else done (record { res = neg Constants.enomem; user = user; desc = desc; f_pos = f_pos })

  -- A file that is not at its start has no more entries. A positive result becomes 0. `stack` is
  -- what the local entry holds before.
  unfoldable pub vsnfs_readdir :
      (page : Bool)
      → (reply : ℤ × List ℕ) → (f_pos : ℕ) → User
      → (stack : VsnfsEntry) → Run (Left User)
  unfolding simple_readdir
  vsnfs_readdir page reply f_pos user stack =
      let desc : Desc = record {
        ptr = none;
        page = false;
        page_index = 0;
        target = f_pos;
        entry = record stack { eof = 0 };
      } in
      if f_pos == 0
      then (do
        left ← simple_readdir page reply f_pos user desc
        done (record left { res = if is_neg left.res then left.res else pos 0 }))
      else done (record { res = pos 0; user = user; desc = desc; f_pos = f_pos })
