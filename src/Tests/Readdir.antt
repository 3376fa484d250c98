-- ===== src/Tests/Readdir.antt =====
-- The whole `readdir`: Readdir.EndToEnd, Readdir.Room, Readdir.Fuel, Readdir.Reference.
use vsnfs.Base.{
  ℕ, suc, ◌≤◌, ◌≡◌, ◌≢◌, refl, List, [], ◌∷◌, ◌++◌, some, none, true, ℤ, pos, neg, little, done,
  oops, out_of_fuel, length, arith, cpu_to_be32,
}
use vsnfs.Protocol.{VsnfsStat, vsnfserr}
use vsnfs.Handle.{handle_of, decimal}
use vsnfs.Vfs.{fill_all}
use vsnfs.ClientXdr.{VsnfsEntry}
use vsnfs.ServerXdr.{ReaddirArgs, ReaddirRes, vsnfssvc_encode_entry, vsnfssvc_encode_readdirres}
use vsnfs.Server.Files.{filler, vsnfsd_open, vsnfsd_proc_readdir}
use vsnfs.Readdir.Reference.{feed, parse_page, vsnfs_do_filldir-feed}
use vsnfs.Dir.{Desc, vsnfs_do_filldir, Filldir, Left, vsnfs_readdir}
use vsnfs.Readdir.Loop.{page, deliver}
use vsnfs.Readdir.EndToEnd.{readdir_delivers, vsnfs_readdir-page}
use vsnfs.Readdir.Fuel.{vsnfs_readdir-ne-out_of_fuel}
use vsnfs.Readdir.Room.{readdir_room}
use vsnfs.Tests.Instances.{sunrpc, strtoul, vfs, eight_bytes, some_fh, blank_rqst, dirent_b}
use vsnfs.Tests.Replies.{root_table, root_reply}

-- A consumer that notes each entry.
abbrev pub note_entry : List Filldir → Filldir → ℤ × List Filldir
note_entry noted ev = (pos 0, ev ∷ noted)

abbrev pub args : ReaddirArgs
args = record { fh = root_reply.resp; count = 4096; buffer = 1 }

abbrev pub blank_entry : VsnfsEntry
blank_entry = record { ino = 0; offset = 0; name = []; len = 0; eof = 0; fh = some_fh }

abbrev pub event_b : Filldir
event_b = record { name = b'b' ∷ []; len = 1; offset = 4294967295; fileid = 12; d_type = 8 }

pub opened_root :
    vsnfsd_open strtoul (vfs {State = ReaddirRes}) little true root_table args.fh
    ≡ done (vsnfserr little VsnfsStat.ok, some (dirent_b ∷ []))
unfolding vsnfsd_open handle_of decimal
opened_root = refl

readdir_delivers_example :
    (res : ReaddirRes) × (left : Left (List Filldir)) × (vsnfsd_proc_readdir strtoul
        (vfs {State = ReaddirRes})
        little
        sunrpc
        eight_bytes
        true
        root_table
        args
      ≡ done (vsnfserr little VsnfsStat.ok, res))
    × (vsnfs_readdir sunrpc note_entry true
          (pos 0, (vsnfssvc_encode_readdirres blank_rqst res).1 ++ (9 ∷ []))
          0
          []
          blank_entry
        ≡ done left)
    × (left.user ≡ event_b ∷ [])
    × (left.res ≡ pos 0)
unfolding deliver
readdir_delivers_example =
    readdir_delivers sunrpc strtoul little (vfs {State = ReaddirRes}) eight_bytes refl note_entry
      (λ u ev. refl) root_table args (dirent_b ∷ []) blank_rqst (9 ∷ []) [] blank_entry opened_root
      refl ((omega arith, omega arith, omega arith), tt) (omega arith)

vsnfs_readdir-page_example :
    (left : Left (List Filldir)) × (vsnfs_readdir sunrpc note_entry true
        (pos 0, page sunrpc little eight_bytes refl 0 (omega arith) (9 ∷ []) (dirent_b ∷ []))
        0
        []
        blank_entry
      ≡ done left)
    × (left.res ≡ neg 523)
    × (left.user ≡ event_b ∷ [])
    × (left.f_pos ≡ 0)
unfolding deliver
vsnfs_readdir-page_example =
    vsnfs_readdir-page sunrpc little eight_bytes refl 0 (omega arith) (9 ∷ []) note_entry
      (λ u ev. refl) (dirent_b ∷ []) [] blank_entry ((omega arith, omega arith, omega arith), tt)

-- A consumer that refuses the second entry.
abbrev one_entry : List Filldir → Filldir → ℤ × List Filldir
one_entry [] ev = (pos 0, ev ∷ [])
one_entry (old ∷ noted) ev = (neg 22, old ∷ noted)

abbrev two_entries : List ℕ
two_entries =
    page sunrpc little eight_bytes refl 1 (omega arith) (9 ∷ []) (dirent_b ∷ dirent_b ∷ [])

abbrev blank_desc : Desc
blank_desc = record {
  ptr = some two_entries;
  page = true;
  page_index = 0;
  target = 0;
  entry = blank_entry;
}

vsnfs_do_filldir-feed_example :
    vsnfs_do_filldir sunrpc one_entry 0 [] two_entries blank_desc
    ≡ feed one_entry 0 [] (parse_page sunrpc (suc (length two_entries)) two_entries blank_desc)
vsnfs_do_filldir-feed_example = vsnfs_do_filldir-feed one_entry 0 sunrpc [] two_entries blank_desc

-- What the server leaves for a client that asks for twelve bytes: no entry fits.
abbrev no_entry : ReaddirRes
no_entry = record {
  count = 0;
  err = vsnfserr little VsnfsStat.toosmall;
  buffer = [];
  buflen = 1;
  offset = none;
}

abbrev small_args : ReaddirArgs
small_args = record { fh = root_reply.resp; count = 12; buffer = 1 }

small_lem :
    vsnfsd_proc_readdir strtoul
      (vfs {State = ReaddirRes})
      little
      sunrpc
      eight_bytes
      true
      root_table
      small_args
    ≡ done (0, no_entry)
unfolding vsnfsd_proc_readdir fill_all vsnfssvc_encode_entry handle_of decimal vsnfserr vsnfsd_open
    cpu_to_be32 filler
small_lem = refl

readdir_room_example :
    (length (vsnfssvc_encode_readdirres blank_rqst no_entry).1 ≤ 12)
    × ((vsnfssvc_encode_readdirres blank_rqst no_entry).0.page_len
        ≡ length (vsnfssvc_encode_readdirres blank_rqst no_entry).1)
readdir_room_example =
    readdir_room sunrpc little eight_bytes strtoul (vfs {State = ReaddirRes}) true root_table
      small_args blank_rqst 0 no_entry (omega arith) small_lem

-- A page of eight bytes that hold no entry.
vsnfs_readdir-ne-out_of_fuel_example :
    vsnfs_readdir sunrpc note_entry true (pos 0, eight_bytes) 0 [] blank_entry ≢ oops out_of_fuel
vsnfs_readdir-ne-out_of_fuel_example =
    vsnfs_readdir-ne-out_of_fuel sunrpc note_entry true (pos 0, eight_bytes) 0 [] blank_entry
