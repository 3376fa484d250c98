-- ===== src/Protocol/Codes.antt =====
-- The statuses of vsnfs.h and server/vsnfsd.h, read back from their numbers and from their words.
use vsnfs.Base.{
  ◌<◌, ◌^◌, ℕ, ◌≡◌, refl, List, [], ◌∷◌, Option, none, some, ◌==◌, if◌then◌else◌, Endian, store32,
  get_be32, ◌++◌, Run, ◌>>=◌, get_be32-be32, store32-cpu_to_be32, done, arith, IsWord,
}
use vsnfs.Protocol.{VsnfsStat, code, vsnfserr}

abbrev find_code : ℕ → List VsnfsStat → Option VsnfsStat
find_code n [] = none
find_code n (s ∷ ss) = let rest = find_code n ss in if code s == n then some s else rest

abbrev all_stats : List VsnfsStat
all_stats =
    VsnfsStat.ok ∷ VsnfsStat.perm ∷ VsnfsStat.noent ∷ VsnfsStat.io ∷ VsnfsStat.nxio
    ∷ VsnfsStat.eagain ∷ VsnfsStat.acces ∷ VsnfsStat.exist ∷ VsnfsStat.xdev ∷ VsnfsStat.nodev
    ∷ VsnfsStat.notdir ∷ VsnfsStat.isdir ∷ VsnfsStat.inval ∷ VsnfsStat.fbig ∷ VsnfsStat.nospc
    ∷ VsnfsStat.rofs ∷ VsnfsStat.mlink ∷ VsnfsStat.opnotsupp ∷ VsnfsStat.nametoolong
    ∷ VsnfsStat.notempty ∷ VsnfsStat.dquot ∷ VsnfsStat.stale ∷ VsnfsStat.remote ∷ VsnfsStat.wflush
    ∷ VsnfsStat.badhandle ∷ VsnfsStat.not_sync ∷ VsnfsStat.bad_cookie ∷ VsnfsStat.notsupp
    ∷ VsnfsStat.toosmall ∷ VsnfsStat.serverfault ∷ VsnfsStat.badtype ∷ VsnfsStat.jukebox
    ∷ VsnfsStat.same ∷ VsnfsStat.denied ∷ VsnfsStat.expired ∷ VsnfsStat.locked ∷ VsnfsStat.grace
    ∷ VsnfsStat.fhexpired ∷ VsnfsStat.share_denied ∷ VsnfsStat.wrongsec ∷ VsnfsStat.clid_inuse
    ∷ VsnfsStat.resource ∷ VsnfsStat.moved ∷ VsnfsStat.nofilehandle ∷ VsnfsStat.minor_vers_mismatch
    ∷ VsnfsStat.stale_clientid ∷ VsnfsStat.stale_stateid ∷ VsnfsStat.old_stateid
    ∷ VsnfsStat.bad_stateid ∷ VsnfsStat.bad_seqid ∷ VsnfsStat.not_same ∷ VsnfsStat.lock_range
    ∷ VsnfsStat.symlink ∷ VsnfsStat.restorefh ∷ VsnfsStat.lease_moved ∷ VsnfsStat.attrnotsupp
    ∷ VsnfsStat.no_grace ∷ VsnfsStat.reclaim_bad ∷ VsnfsStat.reclaim_conflict ∷ VsnfsStat.bad_xdr
    ∷ VsnfsStat.locks_held ∷ VsnfsStat.openmode ∷ VsnfsStat.badowner ∷ VsnfsStat.badchar
    ∷ VsnfsStat.badname ∷ VsnfsStat.bad_range ∷ VsnfsStat.lock_notsupp ∷ VsnfsStat.op_illegal
    ∷ VsnfsStat.deadlock ∷ VsnfsStat.file_open ∷ VsnfsStat.admin_revoked ∷ VsnfsStat.cb_path_down
    ∷ []

-- The status of a number.
pub stat_of : ℕ → Option VsnfsStat
stat_of n = find_code n all_stats

stat_of-code : (s : VsnfsStat) → stat_of (code s) ≡ some s
unfolding stat_of
stat_of-code VsnfsStat.ok = refl
stat_of-code VsnfsStat.perm = refl
stat_of-code VsnfsStat.noent = refl
stat_of-code VsnfsStat.io = refl
stat_of-code VsnfsStat.nxio = refl
stat_of-code VsnfsStat.eagain = refl
stat_of-code VsnfsStat.acces = refl
stat_of-code VsnfsStat.exist = refl
stat_of-code VsnfsStat.xdev = refl
stat_of-code VsnfsStat.nodev = refl
stat_of-code VsnfsStat.notdir = refl
stat_of-code VsnfsStat.isdir = refl
stat_of-code VsnfsStat.inval = refl
stat_of-code VsnfsStat.fbig = refl
stat_of-code VsnfsStat.nospc = refl
stat_of-code VsnfsStat.rofs = refl
stat_of-code VsnfsStat.mlink = refl
stat_of-code VsnfsStat.opnotsupp = refl
stat_of-code VsnfsStat.nametoolong = refl
stat_of-code VsnfsStat.notempty = refl
stat_of-code VsnfsStat.dquot = refl
stat_of-code VsnfsStat.stale = refl
stat_of-code VsnfsStat.remote = refl
stat_of-code VsnfsStat.wflush = refl
stat_of-code VsnfsStat.badhandle = refl
stat_of-code VsnfsStat.not_sync = refl
stat_of-code VsnfsStat.bad_cookie = refl
stat_of-code VsnfsStat.notsupp = refl
stat_of-code VsnfsStat.toosmall = refl
stat_of-code VsnfsStat.serverfault = refl
stat_of-code VsnfsStat.badtype = refl
stat_of-code VsnfsStat.jukebox = refl
stat_of-code VsnfsStat.same = refl
stat_of-code VsnfsStat.denied = refl
stat_of-code VsnfsStat.expired = refl
stat_of-code VsnfsStat.locked = refl
stat_of-code VsnfsStat.grace = refl
stat_of-code VsnfsStat.fhexpired = refl
stat_of-code VsnfsStat.share_denied = refl
stat_of-code VsnfsStat.wrongsec = refl
stat_of-code VsnfsStat.clid_inuse = refl
stat_of-code VsnfsStat.resource = refl
stat_of-code VsnfsStat.moved = refl
stat_of-code VsnfsStat.nofilehandle = refl
stat_of-code VsnfsStat.minor_vers_mismatch = refl
stat_of-code VsnfsStat.stale_clientid = refl
stat_of-code VsnfsStat.stale_stateid = refl
stat_of-code VsnfsStat.old_stateid = refl
stat_of-code VsnfsStat.bad_stateid = refl
stat_of-code VsnfsStat.bad_seqid = refl
stat_of-code VsnfsStat.not_same = refl
stat_of-code VsnfsStat.lock_range = refl
stat_of-code VsnfsStat.symlink = refl
stat_of-code VsnfsStat.restorefh = refl
stat_of-code VsnfsStat.lease_moved = refl
stat_of-code VsnfsStat.attrnotsupp = refl
stat_of-code VsnfsStat.no_grace = refl
stat_of-code VsnfsStat.reclaim_bad = refl
stat_of-code VsnfsStat.reclaim_conflict = refl
stat_of-code VsnfsStat.bad_xdr = refl
stat_of-code VsnfsStat.locks_held = refl
stat_of-code VsnfsStat.openmode = refl
stat_of-code VsnfsStat.badowner = refl
stat_of-code VsnfsStat.badchar = refl
stat_of-code VsnfsStat.badname = refl
stat_of-code VsnfsStat.bad_range = refl
stat_of-code VsnfsStat.lock_notsupp = refl
stat_of-code VsnfsStat.op_illegal = refl
stat_of-code VsnfsStat.deadlock = refl
stat_of-code VsnfsStat.file_open = refl
stat_of-code VsnfsStat.admin_revoked = refl
stat_of-code VsnfsStat.cb_path_down = refl

pub code-small : (s : VsnfsStat) → code s < 2 ^ 31
code-small VsnfsStat.ok = omega arith
code-small VsnfsStat.perm = omega arith
code-small VsnfsStat.noent = omega arith
code-small VsnfsStat.io = omega arith
code-small VsnfsStat.nxio = omega arith
code-small VsnfsStat.eagain = omega arith
code-small VsnfsStat.acces = omega arith
code-small VsnfsStat.exist = omega arith
code-small VsnfsStat.xdev = omega arith
code-small VsnfsStat.nodev = omega arith
code-small VsnfsStat.notdir = omega arith
code-small VsnfsStat.isdir = omega arith
code-small VsnfsStat.inval = omega arith
code-small VsnfsStat.fbig = omega arith
code-small VsnfsStat.nospc = omega arith
code-small VsnfsStat.rofs = omega arith
code-small VsnfsStat.mlink = omega arith
code-small VsnfsStat.opnotsupp = omega arith
code-small VsnfsStat.nametoolong = omega arith
code-small VsnfsStat.notempty = omega arith
code-small VsnfsStat.dquot = omega arith
code-small VsnfsStat.stale = omega arith
code-small VsnfsStat.remote = omega arith
code-small VsnfsStat.wflush = omega arith
code-small VsnfsStat.badhandle = omega arith
code-small VsnfsStat.not_sync = omega arith
code-small VsnfsStat.bad_cookie = omega arith
code-small VsnfsStat.notsupp = omega arith
code-small VsnfsStat.toosmall = omega arith
code-small VsnfsStat.serverfault = omega arith
code-small VsnfsStat.badtype = omega arith
code-small VsnfsStat.jukebox = omega arith
code-small VsnfsStat.same = omega arith
code-small VsnfsStat.denied = omega arith
code-small VsnfsStat.expired = omega arith
code-small VsnfsStat.locked = omega arith
code-small VsnfsStat.grace = omega arith
code-small VsnfsStat.fhexpired = omega arith
code-small VsnfsStat.share_denied = omega arith
code-small VsnfsStat.wrongsec = omega arith
code-small VsnfsStat.clid_inuse = omega arith
code-small VsnfsStat.resource = omega arith
code-small VsnfsStat.moved = omega arith
code-small VsnfsStat.nofilehandle = omega arith
code-small VsnfsStat.minor_vers_mismatch = omega arith
code-small VsnfsStat.stale_clientid = omega arith
code-small VsnfsStat.stale_stateid = omega arith
code-small VsnfsStat.old_stateid = omega arith
code-small VsnfsStat.bad_stateid = omega arith
code-small VsnfsStat.bad_seqid = omega arith
code-small VsnfsStat.not_same = omega arith
code-small VsnfsStat.lock_range = omega arith
code-small VsnfsStat.symlink = omega arith
code-small VsnfsStat.restorefh = omega arith
code-small VsnfsStat.lease_moved = omega arith
code-small VsnfsStat.attrnotsupp = omega arith
code-small VsnfsStat.no_grace = omega arith
code-small VsnfsStat.reclaim_bad = omega arith
code-small VsnfsStat.reclaim_conflict = omega arith
code-small VsnfsStat.bad_xdr = omega arith
code-small VsnfsStat.locks_held = omega arith
code-small VsnfsStat.openmode = omega arith
code-small VsnfsStat.badowner = omega arith
code-small VsnfsStat.badchar = omega arith
code-small VsnfsStat.badname = omega arith
code-small VsnfsStat.bad_range = omega arith
code-small VsnfsStat.lock_notsupp = omega arith
code-small VsnfsStat.op_illegal = omega arith
code-small VsnfsStat.deadlock = omega arith
code-small VsnfsStat.file_open = omega arith
code-small VsnfsStat.admin_revoked = omega arith
code-small VsnfsStat.cb_path_down = omega arith

pub code-IsWord : (s : VsnfsStat) → IsWord (code s)
code-IsWord s = omega (arith, code-small s)

-- The status that a reply begins with, and the rest of the reply.
abbrev pub read_status : List ℕ → Run (Option VsnfsStat × List ℕ)
read_status p = do (n, rest) ← get_be32 p; done (stat_of n, rest)

-- Each status that the server keeps as a word of its host and stores in a reply is read back from
-- the reply as itself, on a host of either byte order, so no two statuses look the same to a client.
pub read_status-vsnfserr :
    (e : Endian) (s : VsnfsStat) (more : List ℕ)
    → read_status (store32 e (vsnfserr e s) ++ more) ≡ done (some s, more)
unfolding vsnfserr
read_status-vsnfserr e s more =
    rw (store32-cpu_to_be32 e (code s), get_be32-be32 (code s) more (code-IsWord s), stat_of-code s)
      refl
