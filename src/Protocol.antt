-- ===== src/Protocol.antt =====
-- vsnfs.h: the protocol's constants, its status codes and the file handle; server/vsnfsd.h: the
-- status codes as the server keeps them.
use vsnfs.Base.{ℕ, ◌^◌, ◌<◌, ◌≡◌, List, Endian, cpu_to_be32, length}
pub mod Codes

abbrev pub fhsize : ℕ
fhsize = 8

abbrev pub maxnamlen : ℕ
maxnamlen = 255

abbrev pub maxpathlen : ℕ
maxpathlen = 1024

-- `fh->type`
abbrev pub reg : ℕ
reg = 1

abbrev pub dir : ℕ
dir = 2

-- The error codes that are meaningful in RPC context.
pub data VsnfsStat : Type 0 where
  ok perm noent io nxio eagain acces exist xdev nodev notdir isdir inval fbig nospc rofs mlink :
      VsnfsStat
  opnotsupp nametoolong notempty dquot stale remote wflush badhandle not_sync bad_cookie notsupp :
      VsnfsStat
  toosmall serverfault badtype jukebox same denied expired locked grace fhexpired share_denied :
      VsnfsStat
  wrongsec clid_inuse resource moved nofilehandle minor_vers_mismatch stale_clientid : VsnfsStat
  stale_stateid old_stateid bad_stateid bad_seqid not_same lock_range symlink restorefh : VsnfsStat
  lease_moved attrnotsupp no_grace reclaim_bad reclaim_conflict bad_xdr locks_held openmode :
      VsnfsStat
  badowner badchar badname bad_range lock_notsupp op_illegal deadlock file_open admin_revoked :
      VsnfsStat
  cb_path_down : VsnfsStat

abbrev pub code : VsnfsStat → ℕ
code ok = 0
code perm = 1
code noent = 2
code io = 5
code nxio = 6
code eagain = 11
code acces = 13
code exist = 17
code xdev = 18
code nodev = 19
code notdir = 20
code isdir = 21
code inval = 22
code fbig = 27
code nospc = 28
code rofs = 30
code mlink = 31
code opnotsupp = 45
code nametoolong = 63
code notempty = 66
code dquot = 69
code stale = 70
code remote = 71
code wflush = 99
code badhandle = 10001
code not_sync = 10002
code bad_cookie = 10003
code notsupp = 10004
code toosmall = 10005
code serverfault = 10006
code badtype = 10007
code jukebox = 10008
code same = 10009
code denied = 10010
code expired = 10011
code locked = 10012
code grace = 10013
code fhexpired = 10014
code share_denied = 10015
code wrongsec = 10016
code clid_inuse = 10017
code resource = 10018
code moved = 10019
code nofilehandle = 10020
code minor_vers_mismatch = 10021
code stale_clientid = 10022
code stale_stateid = 10023
code old_stateid = 10024
code bad_stateid = 10025
code bad_seqid = 10026
code not_same = 10027
code lock_range = 10028
code symlink = 10029
code restorefh = 10030
code lease_moved = 10031
code attrnotsupp = 10032
code no_grace = 10033
code reclaim_bad = 10034
code reclaim_conflict = 10035
code bad_xdr = 10036
code locks_held = 10037
code openmode = 10038
code badowner = 10039
code badchar = 10040
code badname = 10041
code bad_range = 10042
code lock_notsupp = 10043
code op_illegal = 10044
code deadlock = 10045
code file_open = 10046
code admin_revoked = 10047
code cb_path_down = 10048

-- `vsnfserr_perm` and its like: a status code in network order, as a number of the host.
unfoldable pub vsnfserr : Endian → VsnfsStat → ℕ
vsnfserr e s = cpu_to_be32 e (code s)

-- `handle` is the array `data`; `type` is an `int`, kept as its bit pattern.
pub record VsnfsFh : Type 0 where
  pub handle : List ℕ
  pub type : ℕ

abbrev pub IsFh : VsnfsFh → Type 0
IsFh fh = (length fh.handle ≡ fhsize) × (fh.type < 2 ^ 32)
