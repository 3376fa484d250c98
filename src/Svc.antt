-- ===== src/Svc.antt =====
-- server/vsnfssvc.c: how a request is dispatched, the service thread's loop, and how the service is
-- started and ended.
use vsnfs.Base.{
  ℕ, zero, suc, ◌+◌, ◌-◌, List, [], ◌∷◌, ◌++◌, Option, none, some, Bool, true, false, ◌==◌,
  if◌then◌else◌, ℤ, pos, neg, eqb, is_neg, Endian, store32, Run, done, oops, null_pointer, ◌>>=◌,
}
use vsnfs.ServerXdr.{SvcRqst}
use vsnfs.Server.{Table, Node, nodes}
use vsnfs.Errno.Constants
pub mod Procedures
pub mod Lockd
pub mod Sizes
pub mod Dispatch
pub mod Daemon
pub mod Calls
pub mod Null
pub mod Layout

-- `*statp` after the dispatch: untouched, or an error of the RPC layer.
pub data Accept : Type 0 where
  untouched garbage_args system_err : Accept

-- An entry of `vsnfsd_procedures1`. A procedure takes the server's state, the arguments and the
-- memory for the response, and gives the state, the status and the response. All entries that
-- have a procedure have a decoder and an encoder.
pub record SvcProcedure (Args Resp State : Type 0) : Type 0 where
  pub pc_decode : SvcRqst → List ℕ → Run (Option Args × SvcRqst)
  pub pc_func : State → Args → Resp → Run (State × ℕ × Resp)
  pub pc_encode : SvcRqst → Resp → Bool × SvcRqst

-- What is left of a request: `*statp`, the request with its reply, and the state.
pub record Dispatched (State : Type 0) : Type 0 where
  pub statp : Accept
  pub rqstp : SvcRqst
  pub state : State

module _ {Args Resp State : Type 0} (e : Endian) (proc : SvcProcedure Args Resp State) where
  -- The status goes behind the reply's head, and the result only behind a status of 0.
  unfoldable pub dispatch_call : SvcRqst → State → Resp → Args → Run (Dispatched State)
  dispatch_call rqstp state resp args = do
    (state', nfserr, resp') ← proc.pc_func state args resp
    let with_status : SvcRqst = record rqstp { head = rqstp.head ++ store32 e nfserr }
    let (fits, encoded) = proc.pc_encode with_status resp'
    done (
        if nfserr == 0
        then record {
          statp = if fits then untouched else system_err;
          rqstp = encoded;
          state = state';
        }
        else record { statp = untouched; rqstp = with_status; state = state' })

  -- `base` is the request's memory, and `resp` the memory for the response.
  unfoldable pub vsnfsd_dispatch : SvcRqst → List ℕ → State → Resp → Run (Dispatched State)
  unfolding dispatch_call
  vsnfsd_dispatch rqstp base state resp = do
    (args, rqstp') ← proc.pc_decode rqstp base
    elim args [
      | none ↦ done (record { statp = garbage_args; rqstp = rqstp'; state = state })
      | some a ↦ dispatch_call rqstp' state resp a
    ]

-- What the service thread does.
pub data Action : Type 0 where
  process sleep : Action
  warn : ℤ → Action

-- The main loop over what `svc_recv` returns, from call to call: -EAGAIN calls again, -EINTR ends the
-- loop, another error is noted if it is a new one, and the thread sleeps; else a request is served.
-- The result is what was done, and whether the loop ended.
unfoldable pub vsnfsd_loop : (preverr : ℤ) → List ℤ → List Action × Bool
vsnfsd_loop preverr [] = ([], false)
vsnfsd_loop preverr (err ∷ errs) =
    let again = vsnfsd_loop preverr errs in
    let served = vsnfsd_loop preverr errs in
    let slept = vsnfsd_loop err errs in
    if eqb err (neg Constants.eagain)
    then again
    else if eqb err (neg Constants.eintr)
    then ([], true)
    else if is_neg err
    then (if eqb err preverr then sleep ∷ slept.0 else warn err ∷ (sleep ∷ slept.0), slept.1)
    else (process ∷ served.0, served.1)

-- The thread: without its own `fs` it ends at once.
unfoldable pub vsnfsd : (unshared : ℤ) → List ℤ → List Action × Bool
unfolding vsnfsd_loop
vsnfsd unshared errs = if is_neg unshared then ([], true) else vsnfsd_loop (pos 0) errs

-- What `kfree` is called with: a node's path, or the node.
pub data Block : Type 0 where
  node_path : List ℕ → Block
  node_itself : ℕ → Block

-- The loop over the table's list, of which `kept` stands before the cursor: the rest of the list and
-- the blocks that are freed, one after the other.
unfoldable pub free_nodes : (kept ahead : List Node) → List Node × List Block
free_nodes kept [] = (kept, [])
free_nodes kept (node ∷ ahead) =
    let (left, freed) = free_nodes kept ahead in
    (left, node_path node.path ∷ (node_itself node.ino ∷ freed))

-- The loop over the permanent sockets, with the kernel's `lockd_down`.
unfoldable pub down_each : {Lockd : Type 0} → (Lockd → Lockd) → (permsocks : ℕ) → Lockd → Lockd
down_each lockd_down zero lockd = lockd
down_each lockd_down (suc n) lockd = down_each lockd_down n (lockd_down lockd)

-- What the end of the last thread leaves.
pub record LastThread (Lockd : Type 0) : Type 0 where
  pub table : Table
  pub freed : List Block
  pub lockd : Lockd

-- A table that was never made has a head of null pointers.
unfoldable pub vsnfsd_last_thread :
    {Lockd : Type 0}
    → (lockd_down : Lockd → Lockd) → Table
    → (permsocks : ℕ) → Lockd
    → Run (LastThread Lockd)
unfolding free_nodes down_each
vsnfsd_last_thread lockd_down table permsocks lockd = do
  list ← nodes table
  let (left, freed) = free_nodes [] list
  done (record { table = some left; freed = freed; lockd = down_each lockd_down permsocks lockd })

-- The sockets made and the references to `lockd` taken, with the error that is returned.
pub record Socks : Type 0 where
  pub error : ℤ
  pub socks : ℕ
  pub lockd : ℕ

-- What `svc_create_xprt` and `lockd_up` return, for udp and then for tcp.
pub record SockCalls : Type 0 where
  pub udp : ℤ
  pub udp_lockd : ℤ
  pub tcp : ℤ
  pub tcp_lockd : ℤ

unfoldable pub vsnfsd_init_socks : (permsocks : ℕ) → SockCalls → Socks
vsnfsd_init_socks permsocks c =
    if permsocks == 0
    then (if is_neg c.udp
        then record { error = c.udp; socks = 0; lockd = 0 }
        else if is_neg c.udp_lockd
        then record { error = c.udp_lockd; socks = 1; lockd = 0 }
        else if is_neg c.tcp
        then record { error = c.tcp; socks = 1; lockd = 1 }
        else if is_neg c.tcp_lockd
        then record { error = c.tcp_lockd; socks = 2; lockd = 1 }
        else record { error = pos 0; socks = 2; lockd = 2 })
    else record { error = pos 0; socks = permsocks; lockd = 0 }

-- `vsnfsd_svc`: its value, and how often the service was created and destroyed. `threads` is what
-- `svc_set_num_threads` returns and `nrthreads` the service's count of references after it.
pub record Started : Type 0 where
  pub error : ℤ
  pub created : ℕ
  pub destroyed : ℕ

unfoldable pub vsnfsd_create_serv : (serv : Bool) → ℤ
vsnfsd_create_serv serv = if serv then pos 0 else neg Constants.enomem

unfoldable pub vsnfsd_svc :
    (serv : Bool) → (permsocks : ℕ) → SockCalls → (threads : ℤ) → (nrthreads : ℕ) → Started
unfolding vsnfsd_create_serv vsnfsd_init_socks
vsnfsd_svc serv permsocks calls threads nrthreads =
    let error = (vsnfsd_init_socks permsocks calls).error in
    if eqb (vsnfsd_create_serv serv) (pos 0)
    then (if eqb error (pos 0)
        then record {
          error = if eqb threads (pos 0) then pos (nrthreads - 1) else threads;
          created = 1;
          destroyed = 1;
        }
        else record { error = error; created = 1; destroyed = 1 })
    else record { error = vsnfsd_create_serv serv; created = 0; destroyed = 0 }

-- The server's module: its value, and what the start of the service did, whatever that was.
unfoldable init_vsnfsd :
    (serv : Bool) → (permsocks : ℕ) → SockCalls → (threads : ℤ) → (nrthreads : ℕ) → ℤ × Started
unfolding vsnfsd_svc
init_vsnfsd serv permsocks calls threads nrthreads =
    (pos 0, vsnfsd_svc serv permsocks calls threads nrthreads)

-- The end of the server's module leaves what was started: no thread is ended and no socket closed.
abbrev exit_vsnfsd : Started → Started
exit_vsnfsd started = started

-- SVC_OK: every request is let through.
abbrev vsnfs_authentication : SvcRqst → ℕ
vsnfs_authentication rqstp = 5
