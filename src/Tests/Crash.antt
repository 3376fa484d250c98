-- ===== src/Tests/Crash.antt =====
-- A call that stops the server's thread. A LOOKUP: Server.Crash.Lookup.
-- A GETROOT: Server.Crash.Getroot.
use vsnfs.Base.{[], ◌∷◌, ◌≡◌, ◌↔◌, refl, little, oops, null_pointer, out_of_bounds, true}
use vsnfs.Handle.{handle_of, decimal}
use vsnfs.ServerXdr.{ReaddirRes, LookupArgs}
use vsnfs.Server.Resolve.{plenty}
use vsnfs.Server.Lookup.{vsnfsd_proc_lookup}
use vsnfs.Server.Getroot.{vsnfsd_proc_getroot}
use vsnfs.Server.Crash.Getroot.{GetrootFault, vsnfsd_proc_getroot-GetrootFault}
use vsnfs.Server.Crash.Lookup.{LookupFault, vsnfsd_proc_lookup-LookupFault}
use vsnfs.Tests.Instances.{strtoul, vfs, some_fh}
use vsnfs.Tests.Replies.{root_table, root_reply}

-- "z" in the root
abbrev asked : LookupArgs
asked = record { fh = root_reply.resp; filename = b'z' ∷ []; len = 1 }

vsnfsd_proc_lookup-LookupFault_example :
    (vsnfsd_proc_lookup strtoul (vfs {State = ReaddirRes}) little plenty root_table asked some_fh
      ≡ oops null_pointer)
    ↔ LookupFault strtoul (vfs {State = ReaddirRes}) little plenty asked root_table null_pointer
vsnfsd_proc_lookup-LookupFault_example =
    vsnfsd_proc_lookup-LookupFault strtoul (vfs {State = ReaddirRes}) little plenty asked root_table
      some_fh null_pointer

-- The name is missing, and so the thread stops.
asked_missing :
    LookupFault strtoul (vfs {State = ReaddirRes}) little plenty asked root_table null_pointer
unfolding vsnfsd_proc_lookup handle_of decimal
asked_missing =
    (vsnfsd_proc_lookup-LookupFault strtoul (vfs {State = ReaddirRes}) little plenty asked
        root_table some_fh null_pointer).0
      refl

-- A path of no bytes
vsnfsd_proc_getroot-GetrootFault_example :
    (vsnfsd_proc_getroot
        (vfs {State = ReaddirRes})
        little
        plenty
        root_table
        (record { path = []; len = 0 })
        some_fh
      ≡ oops out_of_bounds)
    ↔ ((plenty.nd ≡ true)
        × (plenty.path ≡ true)
        × GetrootFault
            (vfs {State = ReaddirRes})
            little
            plenty
            (record { path = []; len = 0 })
            out_of_bounds)
vsnfsd_proc_getroot-GetrootFault_example =
    vsnfsd_proc_getroot-GetrootFault (vfs {State = ReaddirRes}) little plenty
      (record { path = []; len = 0 }) root_table some_fh out_of_bounds
