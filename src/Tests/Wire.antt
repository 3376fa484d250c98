-- ===== src/Tests/Wire.antt =====
-- Numbers and sizes on the wire: Errno.Wire, Handle.Decimal, Wire.Size.
use vsnfs.Base.{◌^◌, ◌<◌, ◌≤◌, ◌≡◌, ◌↔◌, ◌⊎◌, refl, [], ◌∷◌, ◌++◌, pos, neg, done, arith}
use vsnfs.Errno.{vsnfs_stat_to_errno}
use vsnfs.Errno.Wire.{errno_over_wire, errno_over_wire_lem, stat_to_errno-zero}
use vsnfs.Errno.Constants
use vsnfs.Handle.{handle_of}
use vsnfs.Handle.Decimal.{strtoul-handle_of}
use vsnfs.ClientXdr.{
  vsnfs_xdr_nullargs, vsnfs_xdr_getrootargs, vsnfs_xdr_lookupargs, vsnfs_xdr_readdirargs,
  vsnfs_xdr_readargs,
}
use vsnfs.Wire.Size.{length-le-arglen}
use vsnfs.Wire.Args.{blank}
use vsnfs.Tests.Instances.{sunrpc, strtoul, read_number, root_path, name_b, eight_bytes, some_fh}

errno_over_wire_lem_example : errno_over_wire (neg Constants.eacces) ≡ done (neg Constants.eio)
errno_over_wire_lem_example = errno_over_wire_lem (neg Constants.eacces)

zero_status : vsnfs_stat_to_errno (pos 9480) ≡ done (pos 0)
unfolding vsnfs_stat_to_errno
zero_status = refl

stat_to_errno-zero_example : (pos 9480 ≡ pos 0) ⊎ (pos 9480 ≡ neg 50) ⊎ (pos 9480 ≡ pos 9480)
stat_to_errno-zero_example = stat_to_errno-zero (pos 9480) zero_status

strtoul-handle_of_example :
    (read_number (handle_of eight_bytes 12345678 ++ (2 ∷ 0 ∷ 0 ∷ 0 ∷ [])) ≡ 12345678)
    ↔ (12345678 < 10 ^ 7)
strtoul-handle_of_example =
    strtoul-handle_of strtoul eight_bytes (2 ∷ 0 ∷ 0 ∷ 0 ∷ []) 12345678 (omega arith)

length-le-arglen_example :
    ((vsnfs_xdr_nullargs sunrpc blank 7).slen ≤ 4)
    × ((vsnfs_xdr_getrootargs sunrpc blank (record { path = root_path; len = 3 })).slen ≤ 1028)
    × ((vsnfs_xdr_lookupargs sunrpc blank
          (record { fh = some_fh; filename = name_b; len = 1 })).slen
        ≤ 1060)
    × ((vsnfs_xdr_readdirargs sunrpc blank 8 (record { fh = some_fh; count = 4096 })).slen ≤ 40)
    × ((vsnfs_xdr_readargs sunrpc blank 8 (record { fh = some_fh; offset = 16; length = 100 })).slen
        ≤ 44)
length-le-arglen_example =
    length-le-arglen sunrpc some_fh root_path name_b 7 8 4096 16 100 (refl, omega arith)
      (omega arith) (omega arith)
