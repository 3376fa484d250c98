-- ===== src/Tests/Faults.antt =====
-- READ and READDIR calls that fail: Rpc.Faults.Calls, Rpc.Remount.
use vsnfs.Base.{pos, ℕ, ◌≡◌, refl, List, [], ◌∷◌, neg, little, some, true, done, arith}
use vsnfs.Kernel.{page_size}
use vsnfs.ServerXdr.{ReaddirRes}
use vsnfs.Server.{Table, vsnfsd_fh_to_path, strncpy, cstring, ends_in_slash}
use vsnfs.Protocol.{VsnfsFh, maxpathlen}
use vsnfs.Rpc.{vsnfs_proc_read, vsnfs_proc_readdir}
use vsnfs.Rpc.Serve.{serve}
use vsnfs.Rpc.Faults
use vsnfs.Rpc.Ops.{vsnfs_clientops}
use vsnfs.Rpc.Remount.{getroot-read}
use vsnfs.Server.Lookup.{fh_for}
use vsnfs.Vfs.{directory}
use vsnfs.ServerXdr.{has_nul}
use vsnfs.Rpc.Faults.Calls.{vsnfs_proc_read-fault, vsnfs_readdir-fault}
use vsnfs.Dir.{Filldir, Left, vsnfs_readdir}
use vsnfs.Tests.Instances.{root_path, some_fh, sunrpc, strtoul, vfs, surroundings}
use vsnfs.Tests.Readdir.{note_entry, blank_entry}
use vsnfs.Tests.Replies.{root_table}

-- The inode 12 is not in the table.
abbrev other_fh : VsnfsFh
other_fh = record { handle = b'1' ∷ b'2' ∷ 0 ∷ 0 ∷ 0 ∷ 0 ∷ 0 ∷ 0 ∷ []; type = 1 }

vsnfs_proc_read-fault_example :
    (page : List ℕ) × (vsnfs_proc_read sunrpc
        (serve sunrpc strtoul (vfs {State = ReaddirRes}) little surroundings)
        root_table
        8
        100
        other_fh
        []
        7
        4096
        5
      ≡ done ((neg 2, page, 5), root_table))
unfolding vsnfsd_fh_to_path
vsnfs_proc_read-fault_example =
    vsnfs_proc_read-fault sunrpc strtoul (vfs {State = ReaddirRes}) little surroundings refl
      root_table other_fh (refl, omega arith) 8 100 [] 7 4096 5 (neg 2) (omega arith)
      (Faults.unknown [] refl refl)

-- A table whose inode 12 has a path that is not there any more.
abbrev stale_table : Table
stale_table = some (record { ino = 12; path = b'/' ∷ b'x' ∷ [] } ∷ [])

vsnfs_readdir-fault_example :
    (page : List ℕ) × (left : Left (List Filldir)) × (vsnfs_proc_readdir sunrpc
        (serve sunrpc strtoul (vfs {State = ReaddirRes}) little surroundings)
        stale_table
        8
        other_fh
        []
        page_size
      ≡ done ((neg 5, page), stale_table))
    × (vsnfs_readdir sunrpc note_entry true (neg 5, page) 0 [] blank_entry ≡ done left)
    × (left.res ≡ neg 5)
    × (left.user ≡ [])
unfolding vsnfsd_fh_to_path strncpy cstring
vsnfs_readdir-fault_example =
    vsnfs_readdir-fault sunrpc strtoul (vfs {State = ReaddirRes}) little surroundings refl
      stale_table other_fh (refl, omega arith) 8 note_entry [] [] blank_entry (neg 5)
      (Faults.unopened (strncpy (b'/' ∷ b'x' ∷ []) maxpathlen) (b'/' ∷ b'x' ∷ []) refl refl refl
        refl)

getroot-read_example :
    let ops =
      vsnfs_clientops sunrpc
        (serve sunrpc strtoul (vfs {State = ReaddirRes}) little surroundings) in
    (table' : Table) × (page : List ℕ) × (ops.getroot stale_table
        (record { path = root_path; len = 3 })
        some_fh
      ≡ done ((pos 0, fh_for some_fh (record { i_ino = 2; kind = directory })), table'))
    × (ops.read table' 8 100 other_fh [] 7 4096 5 ≡ done ((neg 2, page, 5), table'))
unfolding has_nul ends_in_slash
getroot-read_example =
    getroot-read sunrpc strtoul (vfs {State = ReaddirRes}) little surroundings refl refl refl refl
      stale_table root_path 2 some_fh other_fh 8 100 7 4096 5 [] refl (λ h. cc) (omega arith) refl
      (refl, omega arith) (λ h. omega (arith, h)) (omega arith)
