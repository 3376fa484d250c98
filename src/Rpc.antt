-- ===== src/Rpc.antt =====
-- The client's procedures (vsnfsProc.c) over the call of the RPC layer, `rpc_call_sync`, which is a
-- parameter: it takes what an encoder wrote, and gives the reply that the decoder reads.
use vsnfs.Base.{ℕ, List, Bool, ◌==◌, if◌then◌else◌, ℤ, pos, eqb, Run, done, ◌>>=◌, ◌%◌, ◌^◌}
use vsnfs.Protocol.{VsnfsFh}
use vsnfs.Kernel.{Sunrpc}
use vsnfs.ClientXdr.{
  RpcRqst, GetrootArgs, LookupArgs, ReadArgs, Proc, null, getroot, lookup, readdir, read,
  vsnfs_xdr_nullargs, vsnfs_xdr_getrootargs, vsnfs_xdr_lookupargs, vsnfs_xdr_readdirargs,
  vsnfs_xdr_readargs, vsnfs_xdr_nullres, vsnfs_xdr_fh, vsnfs_xdr_readdirres, vsnfs_xdr_readres,
}
use vsnfs.Wire.Args.{blank}
pub mod Serve
pub mod Readdir
pub mod Handles
pub mod Reach
pub mod Session
pub mod Programs
pub mod Sizes
pub mod Faults
pub mod Same
pub mod Meaning
pub mod Ops
pub mod Walk
pub mod Truncated
pub mod Arrive
pub mod Again
pub mod Remount
pub mod Read
pub mod Refused

-- What comes back: an error of the RPC layer, as an errno, or a reply's head and its page.
pub data Answer : Type 0 where
  refused : ℤ → Answer
  reply : (head page : List ℕ) → Answer

-- `rpc_call_sync` over a server in some state.
abbrev pub Call : Type 0 → Type 0
Call State = State → Proc → RpcRqst → Run (Answer × State)

module _ {State : Type 0} (x : Sunrpc) (call : Call State) (state : State) where
  -- The status and `*output`.
  unfoldable pub vsnfs_proc_null : (input output : ℕ) → Run ((ℤ × ℕ) × State)
  vsnfs_proc_null input output = do
    (answer, state') ← call state null (vsnfs_xdr_nullargs x blank input)
    elim answer [
      | refused err ↦ done ((err, output), state')
      | reply head page ↦ do
        (status, dummy) ← vsnfs_xdr_nullres head output
        done ((status, if eqb status (pos 0) then dummy else output), state')
    ]

  -- The status and the handle.
  abbrev pub take_fh : VsnfsFh → Answer × State → Run ((ℤ × VsnfsFh) × State)
  take_fh fh (refused err, state') = done ((err, fh), state')
  take_fh fh (reply head page, state') = do result ← vsnfs_xdr_fh head fh; done (result, state')

  unfoldable pub vsnfs_proc_getroot : GetrootArgs → VsnfsFh → Run ((ℤ × VsnfsFh) × State)
  vsnfs_proc_getroot args fh = do
    answer ← call state getroot (vsnfs_xdr_getrootargs x blank args)
    take_fh fh answer

  unfoldable pub vsnfs_proc_lookup : LookupArgs → VsnfsFh → Run ((ℤ × VsnfsFh) × State)
  vsnfs_proc_lookup args fh = do
    answer ← call state lookup (vsnfs_xdr_lookupargs x blank args)
    take_fh fh answer

  -- The status and the page, which held `page` before. `rslack` is the room for the credentials.
  unfoldable pub vsnfs_proc_readdir :
      (rslack : ℕ) (fh : VsnfsFh) (page : List ℕ) (count : ℕ) → Run ((ℤ × List ℕ) × State)
  vsnfs_proc_readdir rslack fh page count = do
    (answer, state') ←
        call state readdir
          (vsnfs_xdr_readdirargs x blank rslack (record { fh = fh; count = count }))
    elim answer [
      | refused err ↦ done ((err, page), state')
      | reply head page' ↦ do status ← vsnfs_xdr_readdirres head; done ((status, page'), state')
    ]

  -- The status, the page and `*pos`: `resp.count` is `count'` before, what the stack holds, and the
  -- decoder does not set it. `base` is the distance of the reply from the send vector.
  unfoldable pub vsnfs_proc_read :
      (rslack base : ℕ) (fh : VsnfsFh) (page : List ℕ) (offset count count' : ℕ)
      → Run ((ℤ × List ℕ × ℕ) × State)
  vsnfs_proc_read rslack base fh page offset count count' = do
    let args : ReadArgs = record { fh = fh; offset = offset % 2 ^ 32; length = count }
    let sent = vsnfs_xdr_readargs x blank rslack args
    (answer, state') ← call state read sent
    elim answer [
      | refused err ↦ done ((err, page, count'), state')
      | reply head page' ↦ do
        (status, _, _) ← vsnfs_xdr_readres x sent base head count'
        done ((status, page', count'), state')
    ]
