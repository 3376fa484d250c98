-- ===== src/Svc/Dispatch.antt =====
-- What the client makes of a dispatched call whose reply is a file handle.
use vsnfs.Base.{
  ℕ, ◌≡◌, ◌≢◌, refl, List, [], ◌++◌, append_assoc, Option, true, ◌==◌, if◌then◌else◌, Bool-cases,
  inl, inr, ==_of_ne, pos, Endian, little, big, store32, cpu_to_be32, be32, get_be32-be32, IsWord,
  Run, done, ◌>>=◌, length, length-append, leb_of_le, take_all, arith,
}
use vsnfs.Protocol.{VsnfsFh, IsFh}
use vsnfs.Kernel.{Sunrpc, page_size}
use vsnfs.Errno.{vsnfs_stat_to_errno, int_of_word}
use vsnfs.ClientXdr.{vsnfs_xdr_fh}
use vsnfs.ServerXdr.{SvcRqst, vsnfssvc_encode_fhandle}
use vsnfs.Svc.{SvcProcedure, Dispatched, untouched, dispatch_call}
use vsnfs.Wire.Bounds.{fh_bytes, length-fh_bytes, xdr_decode_fhandle-fh_bytes}

-- The number that the client reads where the server's host stored `w`.
pub store32-be32 : (e : Endian) (w : ℕ) → IsWord w → store32 e w ≡ be32 (cpu_to_be32 e w)
unfolding store32 cpu_to_be32
store32-be32 little w h = ground arith
store32-be32 big w h = ground arith

pub cpu_to_be32-IsWord : (e : Endian) (w : ℕ) → IsWord (cpu_to_be32 e w)
unfolding cpu_to_be32
cpu_to_be32-IsWord little w = omega arith
cpu_to_be32-IsWord big w = omega arith

pub cpu_to_be32_pos : (e : Endian) (w : ℕ) → IsWord w → w ≢ 0 → cpu_to_be32 e w ≢ 0
unfolding cpu_to_be32
cpu_to_be32_pos little w h n = omega arith
cpu_to_be32_pos big w h n = omega arith

length-store32 : (e : Endian) (w : ℕ) → length (store32 e w) ≡ 4
unfolding store32
length-store32 little w = refl
length-store32 big w = refl

stored_zero : (e : Endian) (w : ℕ) → (w == 0) ≡ true → store32 e w ≡ be32 0
unfolding store32
stored_zero little w h = ground arith
stored_zero big w h = ground arith

xdr_fh_ok :
    (resp fh : VsnfsFh) (more : List ℕ)
    → IsFh resp
    → vsnfs_xdr_fh (be32 0 ++ (fh_bytes resp ++ more)) fh ≡ done (pos 0, resp)
unfolding vsnfs_xdr_fh
xdr_fh_ok resp fh more ok = rw (
  get_be32-be32 0 (fh_bytes resp ++ more) (omega arith),
  xdr_decode_fhandle-fh_bytes resp more ok,
)

xdr_fh_status :
    (n : ℕ) (fh : VsnfsFh) (more : List ℕ)
    → IsWord n
    → n ≢ 0
    → vsnfs_xdr_fh (be32 n ++ more) fh
      ≡ (do errno ← vsnfs_stat_to_errno (int_of_word n); done (errno, fh))
unfolding vsnfs_xdr_fh
xdr_fh_status n fh more word h = rw (get_be32-be32 n more word, ==_of_ne n 0 h)

-- A status and a handle fit the head of a reply.
encode_fhandle_fits :
    (x : Sunrpc) (rqstp : SvcRqst) (resp : VsnfsFh) (status : List ℕ)
    → IsFh resp
    → length status ≡ 4
    → vsnfssvc_encode_fhandle x (record rqstp { head = status }) resp
      ≡ (true, record rqstp { head = status ++ fh_bytes resp })
unfolding vsnfssvc_encode_fhandle
encode_fhandle_fits x rqstp resp status ok four = rw (
  take_all 8 resp.handle (omega arith),
  append_assoc status resp.handle (be32 resp.type),
  x.ressize_check_lem,
  leb_of_le (length (status ++ fh_bytes resp)) page_size
      (omega (arith, length-append status (fh_bytes resp), length-fh_bytes resp ok)),
)

module _ (x : Sunrpc) (e : Endian) {Args State : Type 0}
    (decode : SvcRqst → List ℕ → Run (Option Args × SvcRqst))
    (func : State → Args → VsnfsFh → Run (State × ℕ × VsnfsFh)) where
  -- A procedure that answers with a file handle.
  abbrev pub fh_procedure : SvcProcedure Args VsnfsFh State
  fh_procedure = record {
    pc_decode = decode;
    pc_func = func;
    pc_encode = vsnfssvc_encode_fhandle x;
  }

  -- If a procedure that answers with a well-formed handle returns and the reply is still empty,
  -- its state is kept, and the client gets the handle behind a status of 0. Behind any other
  -- status it gets the errno of the number that the status' bytes spell in network order, and its
  -- own handle is left alone.
  pub dispatch_call-fh :
      (rqstp : SvcRqst) (state state' : State) (args : Args) (resp resp' fh : VsnfsFh) (w : ℕ)
      (more : List ℕ)
      → rqstp.head ≡ []
      → func state args resp ≡ done (state', w, resp')
      → IsWord w
      → IsFh resp'
      → (d : Dispatched State) × (dispatch_call e fh_procedure rqstp state resp args ≡ done d)
        × (d.statp ≡ untouched)
        × (d.state ≡ state')
        × (vsnfs_xdr_fh (d.rqstp.head ++ more) fh ≡ (
            if w == 0 then done (pos 0, resp') else (do
              errno ← vsnfs_stat_to_errno (int_of_word (cpu_to_be32 e w))
              done (errno, fh))))
  unfolding dispatch_call
  dispatch_call-fh rqstp state state' args resp resp' fh w more blank ran word ok =
      elim (Bool-cases (w == 0)) [
        | inl zero_status ↦ (
          record {
            statp = untouched;
            rqstp = record rqstp { head = store32 e w ++ fh_bytes resp' };
            state = state';
          },
          rw (
            ran,
            zero_status,
            blank,
            encode_fhandle_fits x rqstp resp' (store32 e w) ok (length-store32 e w),
          ),
          refl,
          refl,
          rw
              (
                zero_status,
                append_assoc (store32 e w) (fh_bytes resp') more,
                stored_zero e w zero_status,
              )
              (xdr_fh_ok resp' fh more ok),
        )
        | inr other_status ↦ (
          record { statp = untouched; rqstp = record rqstp { head = store32 e w }; state = state' },
          rw (ran, other_status, blank),
          refl,
          refl,
          rw (other_status, store32-be32 e w word)
              (xdr_fh_status (cpu_to_be32 e w) fh more (cpu_to_be32-IsWord e w)
                (cpu_to_be32_pos e w word (ground arith))),
        )
      ]
