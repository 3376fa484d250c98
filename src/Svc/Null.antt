-- ===== src/Svc/Null.antt =====
-- The NULL call, which counts a number up: the client's encoder and decoder (vsnfsXdr.c) around the
-- dispatch of `vsnfsd_proc_null` (server/vsnfssvc.c, server/vsnfsproc.c).
use vsnfs.Base.{
  ℕ, ◌+◌, ◌%◌, ◌^◌, ◌≡◌, refl, List, [], ◌++◌, append_assoc, pos, Endian, cpu_to_be32_zero, done,
  store32, little, big, be32, length-be32, get_be32-be32, IsWord, length, length-append, leb_of_le,
  arith,
}
use vsnfs.Protocol.{vsnfserr}
use vsnfs.Kernel.{Sunrpc, Strtoul, page_size}
use vsnfs.Vfs.{Vfs}
use vsnfs.ClientXdr.{vsnfs_xdr_nullargs, vsnfs_xdr_nullres}
use vsnfs.ServerXdr.{SvcRqst, vsnfssvc_encode_nullres}
use vsnfs.Server.{Table, vsnfsd_proc_null}
use vsnfs.Wire.Args.{blank, received, nullargs_roundtrip}
use vsnfs.Svc.{untouched, Dispatched, vsnfsd_dispatch}
use vsnfs.Svc.Procedures.{null_procedure}

pub store32_zero : (e : Endian) → store32 e 0 ≡ be32 0
unfolding store32 be32
store32_zero little = refl
store32_zero big = refl

vsnfs_xdr_nullres_ok :
    (n : ℕ) (more : List ℕ) (old : ℕ)
    → IsWord n
    → vsnfs_xdr_nullres ((be32 0 ++ be32 n) ++ more) old ≡ done (pos 0, n)
unfolding vsnfs_xdr_nullres
vsnfs_xdr_nullres_ok n more old w =
    rw
      (
        append_assoc (be32 0) (be32 n) more,
        get_be32-be32 0 (be32 n ++ more) (omega arith),
        get_be32-be32 n more w,
      )
      refl

module _ {File State : Type 0} (x : Sunrpc) (s : Strtoul) (vfs : Vfs File State) (e : Endian) where
  -- The NULL call with a reply that is still empty: the dispatch returns without an error, leaves
  -- the server's table alone, and the client gets its number counted up by one, with wrap-around.
  pub null_call :
      (rqstp : SvcRqst) (table : Table) (dummy resp old : ℕ) (stale more : List ℕ)
      → rqstp.head ≡ []
      → IsWord dummy
      → let sent = vsnfs_xdr_nullargs x blank dummy in
        (d : Dispatched Table) × (vsnfsd_dispatch e
            (null_procedure x s vfs e)
            (received rqstp sent)
            (sent.svec ++ stale)
            table
            resp
          ≡ done d)
        × (d.statp ≡ untouched)
        × (d.state ≡ table)
        × (vsnfs_xdr_nullres (d.rqstp.head ++ more) old ≡ done (pos 0, (dummy + 1) % 2 ^ 32))
  unfolding vsnfsd_dispatch vsnfsd_proc_null vsnfssvc_encode_nullres vsnfserr
  null_call rqstp table dummy resp old stale more empty w =
      let sent = vsnfs_xdr_nullargs x blank dummy in
      let n : ℕ = (dummy + 1) % 2 ^ 32 in
      (
        record {
          statp = untouched;
          rqstp = record (received rqstp sent) { head = be32 0 ++ be32 n };
          state = table;
        },
        rw
            (
              nullargs_roundtrip x rqstp dummy stale w,
              empty,
              cpu_to_be32_zero e,
              store32_zero e,
              x.ressize_check_lem,
              leb_of_le (length (be32 0 ++ be32 n)) page_size
                  (omega (arith, length-append (be32 0) (be32 n), length-be32 0, length-be32 n)),
            )
            refl,
        refl,
        refl,
        vsnfs_xdr_nullres_ok n more old (omega arith),
      )
