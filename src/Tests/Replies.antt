-- ===== src/Tests/Replies.antt =====
-- What the procedures answer over the file system of the instances.
use vsnfs.Base.{◌≡◌, refl, [], ◌∷◌, ◌++◌, some, none, little, done}
use vsnfs.ServerXdr.{ReaddirRes}
use vsnfs.Protocol.{vsnfserr}
use vsnfs.Handle.{handle_of, decimal}
use vsnfs.Server.{Table, Reply}
use vsnfs.Server.Resolve.{plenty}
use vsnfs.Server.Lookup.{vsnfsd_proc_lookup}
use vsnfs.Server.Getroot.{vsnfsd_proc_getroot}
use vsnfs.Tests.Instances.{strtoul, vfs, root_path, name_b, eight_bytes, some_fh}

-- The table after the root was looked up, and after "b" was.
abbrev pub root_table : Table
root_table = some (record { ino = 2; path = root_path } ∷ [])

abbrev pub b_table : Table
b_table =
    some
      (record { ino = 12; path = root_path ++ name_b } ∷ record { ino = 2; path = root_path } ∷ [])

abbrev pub root_reply : Reply
root_reply = record {
  table = root_table;
  status = 0;
  resp = record { handle = handle_of eight_bytes 2; type = 2 };
}

abbrev pub b_reply : Reply
b_reply = record {
  table = b_table;
  status = 0;
  resp = record { handle = handle_of eight_bytes 12; type = 1 };
}

pub b_reply_lem :
    vsnfsd_proc_lookup strtoul
      (vfs {State = ReaddirRes})
      little
      plenty
      root_table
      (record { fh = root_reply.resp; filename = name_b; len = 1 })
      some_fh
    ≡ done b_reply
unfolding vsnfsd_proc_lookup handle_of vsnfserr decimal
b_reply_lem = refl

pub root_reply_lem :
    vsnfsd_proc_getroot
      (vfs {State = ReaddirRes})
      little
      plenty
      none
      (record { path = root_path; len = 3 })
      some_fh
    ≡ done root_reply
unfolding vsnfsd_proc_getroot handle_of vsnfserr
root_reply_lem = refl
