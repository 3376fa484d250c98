-- ===== src/Svc/Daemon.antt =====
-- The service thread's loop of server/vsnfssvc.c: which requests it serves, and when it ends.
use vsnfs.Base.{
  ℕ, suc, ◌≡◌, refl, List, [], ◌∷◌, Bool, true, false, if◌then◌else◌, ℤ, neg, eqb, is_neg, arith,
}
use vsnfs.Errno.Constants
use vsnfs.Svc.{Action, process, sleep, warn, vsnfsd_loop}

-- How many requests were served.
abbrev pub served : List Action → ℕ
served [] = 0
served (process ∷ more) = suc (served more)
served (sleep ∷ more) = served more
served (warn err ∷ more) = served more

-- What `svc_recv` returned before the first signal, whether there was one, and how many of the
-- results are requests.
abbrev pub before_signal : List ℤ → List ℤ
before_signal [] = []
before_signal (err ∷ errs) = if eqb err (neg Constants.eintr) then [] else err ∷ before_signal errs

abbrev pub has_signal : List ℤ → Bool
has_signal [] = false
has_signal (err ∷ errs) = if eqb err (neg Constants.eintr) then true else has_signal errs

abbrev pub requests : List ℤ → ℕ
requests [] = 0
requests (err ∷ errs) = if is_neg err then requests errs else suc (requests errs)

-- The loop serves every request that arrives before the first signal and none after it, whatever
-- errors stand between them, and it ends exactly if there is a signal.
pub vsnfsd_loop_lem :
    (preverr : ℤ) (errs : List ℤ)
    → (served (vsnfsd_loop preverr errs).0 ≡ requests (before_signal errs))
      × ((vsnfsd_loop preverr errs).1 ≡ has_signal errs)
unfolding vsnfsd_loop
vsnfsd_loop_lem preverr [] = (refl, refl)
vsnfsd_loop_lem preverr (err ∷ errs) =
    let same = vsnfsd_loop_lem preverr errs in
    let other = vsnfsd_loop_lem err errs in ground (arith, same, other)
