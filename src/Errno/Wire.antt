-- ===== src/Errno/Wire.antt =====
-- What a server's errno becomes on the client, through the status on the wire.
use vsnfs.Base.{
  ℕ, ◌≢◌, refl, Endian, is_neg, Bool-cases, inl, inr, ◌≡◌, ◌⊎◌, List, [], ◌∷◌, ℤ, pos, negsuc, neg,
  eqb, Bool, true, false, if◌then◌else◌, Run, done, arith,
}
use vsnfs.Protocol.{VsnfsStat, code, vsnfserr}
use vsnfs.Errno.{vsnfs_stat_to_errno, vsnfsd_errtbl, vsnfserrno_loop, vsnfserrno}
use vsnfs.Errno.Constants

-- The errno that the client makes of the status that the server makes of an errno.
unfoldable pub errno_over_wire : ℤ → Run ℤ
unfolding vsnfserrno_loop vsnfs_stat_to_errno
errno_over_wire z = vsnfs_stat_to_errno (pos (code (vsnfserrno_loop vsnfsd_errtbl z)))

abbrev any_eq : List ℕ → ℤ → Bool
any_eq [] z = false
any_eq (e ∷ es) z = if eqb (neg e) z then true else any_eq es z

-- The errnos that cross unchanged.
abbrev pub crosses : ℤ → Bool
crosses = any_eq (
    0 ∷ Constants.enoent ∷ Constants.eio ∷ Constants.enxio ∷ Constants.eexist ∷ Constants.enodev
    ∷ Constants.enotdir ∷ Constants.eisdir ∷ Constants.einval ∷ Constants.efbig ∷ Constants.enospc
    ∷ Constants.erofs ∷ Constants.emlink ∷ Constants.enametoolong ∷ Constants.enotempty
    ∷ Constants.estale ∷ [])

-- Every number that the server turns into a status becomes on the client itself if it is 0 or one
-- of fifteen errnos, and -EIO otherwise; no number faults.
pub errno_over_wire_lem :
    (z : ℤ) → errno_over_wire z ≡ done (if crosses z then z else neg Constants.eio)
unfolding errno_over_wire
errno_over_wire_lem (pos n) = ground arith
errno_over_wire_lem (negsuc n) = ground arith

-- What the client makes of an errno that the server's file system returns.
abbrev pub arrives : ℕ → ℤ
arrives m = if crosses (negsuc m) then negsuc m else neg Constants.eio

-- A status that the client takes for an errno.
abbrev pub IsFault : VsnfsStat → ℤ → Type 0
IsFault stat z =
    (code stat ≢ 0) × (is_neg z ≡ true) × (vsnfs_stat_to_errno (pos (code stat)) ≡ done z)

-- No errno becomes the status of a success.
vsnfserrno_loop-pos : (m : ℕ) → code (vsnfserrno_loop vsnfsd_errtbl (negsuc m)) ≢ 0
unfolding vsnfserrno_loop
vsnfserrno_loop-pos m = ground arith

arrives-is_neg : (m : ℕ) → is_neg (arrives m) ≡ true
arrives-is_neg m = elim (Bool-cases (crosses (negsuc m))) [
  | inl crossing ↦ rw crossing refl
  | inr another ↦ rw another refl
]

pub vsnfserrno-IsFault :
    (e : Endian) (m : ℕ)
    → (stat : VsnfsStat) × (vsnfserrno e (negsuc m) ≡ vsnfserr e stat) × IsFault stat (arrives m)
unfolding vsnfserrno errno_over_wire
vsnfserrno-IsFault e m = (
  vsnfserrno_loop vsnfsd_errtbl (negsuc m),
  refl,
  (vsnfserrno_loop-pos m, arrives-is_neg m, errno_over_wire_lem (negsuc m)),
)

-- A status that the client reads as success is 0, -50 or 9480.
pub stat_to_errno-zero :
    (s : ℤ) → vsnfs_stat_to_errno s ≡ done (pos 0) → (s ≡ pos 0) ⊎ (s ≡ neg 50) ⊎ (s ≡ pos 9480)
unfolding vsnfs_stat_to_errno
stat_to_errno-zero (pos n) h = ground arith
stat_to_errno-zero (negsuc n) h = ground arith
