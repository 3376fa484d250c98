-- ===== src/Errno.antt =====
-- The error tables of both sides. vsnfsXdr.c: `vsnfs_errtbl` and `vsnfs_stat_to_errno`, from a status
-- to an errno on the client. server/vsnfsproc.c: `vsnfserrno`, from an errno to a status.
use vsnfs.Base.{
  ℕ, suc, ◌-◌, ◌^◌, ◌+◌, List, [], ◌∷◌, Endian, ℤ, pos, negsuc, neg, eqb, ltb, if◌then◌else◌, Run,
  done, oops, out_of_bounds,
}
use vsnfs.Protocol.{VsnfsStat, code, vsnfserr}
-- The errno constants of Linux.
pub mod Constants
pub mod Wire
use Constants

-- An initialiser `{stat, errno}` of the table. The two entries that have a `-` where a comma is
-- missing set `stat` to the difference and leave `errno` 0.
pub record ErrtblEntry : Type 0 where
  pub stat : ℤ
  pub errno : ℤ

abbrev entry : ℤ → ℤ → ErrtblEntry
entry s e = record { stat = s; errno = e }

abbrev vsnfs_errtbl : List ErrtblEntry
vsnfs_errtbl =
    entry (pos (code VsnfsStat.ok)) (pos 0)
    ∷ entry (pos (code VsnfsStat.noent)) (neg Constants.enoent)
    ∷ entry (pos (code VsnfsStat.io)) (neg Constants.eio)
    ∷ entry (pos (code VsnfsStat.nxio)) (neg Constants.enxio)
    ∷ entry (pos (code VsnfsStat.eagain)) (neg Constants.eagain)
    ∷ entry (pos (code VsnfsStat.exist)) (neg Constants.eexist)
    ∷ entry (pos (code VsnfsStat.nodev)) (neg Constants.enodev)
    ∷ entry (pos (code VsnfsStat.notdir)) (neg Constants.enotdir)
    ∷ entry (pos (code VsnfsStat.isdir)) (neg Constants.eisdir)
    ∷ entry (pos (code VsnfsStat.inval)) (neg Constants.einval)
    ∷ entry (pos (code VsnfsStat.fbig)) (neg Constants.efbig)
    ∷ entry (pos (code VsnfsStat.nospc)) (neg Constants.enospc)
    ∷ entry (pos (code VsnfsStat.rofs)) (neg Constants.erofs)
    ∷ entry (pos (code VsnfsStat.mlink)) (neg Constants.emlink)
    ∷ entry (neg (Constants.eopnotsupp - code VsnfsStat.opnotsupp)) (pos 0)
    ∷ entry (pos (code VsnfsStat.nametoolong)) (neg Constants.enametoolong)
    ∷ entry (pos (code VsnfsStat.notempty)) (neg Constants.enotempty)
    ∷ entry (pos (code VsnfsStat.dquot)) (neg Constants.edquot)
    ∷ entry (pos (code VsnfsStat.stale)) (neg Constants.estale)
    ∷ entry (pos (code VsnfsStat.remote)) (neg Constants.eremote)
    ∷ entry (pos (code VsnfsStat.badhandle)) (neg Constants.ebadhandle)
    ∷ entry (pos (code VsnfsStat.bad_cookie - Constants.ebadcookie)) (pos 0)
    ∷ entry (neg 1) (neg Constants.eio)
    ∷ []

-- `for (i = 0; tbl[i].stat != -1; i++)`, and the entry at which the loop stops by its test.
stat_to_errno_loop : List ErrtblEntry → ℤ → Run ℤ
stat_to_errno_loop [] stat = oops out_of_bounds
stat_to_errno_loop (t ∷ ts) stat =
    if eqb t.stat (neg 1)
    then done t.errno
    else if eqb t.stat stat
    then done t.errno
    else stat_to_errno_loop ts stat

unfoldable pub vsnfs_stat_to_errno : ℤ → Run ℤ
unfolding stat_to_errno_loop
vsnfs_stat_to_errno stat = stat_to_errno_loop vsnfs_errtbl stat

-- `int status = ntohl(*p++)`: the word as a signed integer.
unfoldable pub int_of_word : ℕ → ℤ
int_of_word w = if ltb w (2 ^ 31) then pos w else negsuc (2 ^ 32 - (w + 1))

-- An initialiser `{vsnfserr, syserr}` of the server's table.
pub record SyserrEntry : Type 0 where
  pub status : VsnfsStat
  pub syserr : ℤ

abbrev sys : VsnfsStat → ℕ → SyserrEntry
sys s e = record { status = s; syserr = neg e }

abbrev vsnfsd_errtbl : List SyserrEntry
vsnfsd_errtbl =
    sys VsnfsStat.ok 0
    ∷ sys VsnfsStat.perm Constants.eperm
    ∷ sys VsnfsStat.noent Constants.enoent
    ∷ sys VsnfsStat.io Constants.eio
    ∷ sys VsnfsStat.nxio Constants.enxio
    ∷ sys VsnfsStat.acces Constants.eacces
    ∷ sys VsnfsStat.exist Constants.eexist
    ∷ sys VsnfsStat.xdev Constants.exdev
    ∷ sys VsnfsStat.mlink Constants.emlink
    ∷ sys VsnfsStat.nodev Constants.enodev
    ∷ sys VsnfsStat.notdir Constants.enotdir
    ∷ sys VsnfsStat.isdir Constants.eisdir
    ∷ sys VsnfsStat.inval Constants.einval
    ∷ sys VsnfsStat.fbig Constants.efbig
    ∷ sys VsnfsStat.nospc Constants.enospc
    ∷ sys VsnfsStat.rofs Constants.erofs
    ∷ sys VsnfsStat.mlink Constants.emlink
    ∷ sys VsnfsStat.nametoolong Constants.enametoolong
    ∷ sys VsnfsStat.notempty Constants.enotempty
    ∷ sys VsnfsStat.stale Constants.estale
    ∷ sys VsnfsStat.jukebox Constants.etimedout
    ∷ sys VsnfsStat.jukebox Constants.erestartsys
    ∷ sys VsnfsStat.io Constants.etxtbsy
    ∷ sys VsnfsStat.notsupp Constants.eopnotsupp
    ∷ sys VsnfsStat.toosmall Constants.etoosmall
    ∷ []

-- The status that the loop over the table finds, `vsnfserr_io` if there is none.
vsnfserrno_loop : List SyserrEntry → ℤ → VsnfsStat
vsnfserrno_loop [] errno = VsnfsStat.io
vsnfserrno_loop (t ∷ ts) errno = if eqb t.syserr errno then t.status else vsnfserrno_loop ts errno

unfoldable pub vsnfserrno : Endian → ℤ → ℕ
unfolding vsnfserrno_loop
vsnfserrno e errno = vsnfserr e (vsnfserrno_loop vsnfsd_errtbl errno)
