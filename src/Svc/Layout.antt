-- ===== src/Svc/Layout.antt =====
-- The memory that the kernel's RPC layer gives a request for its arguments and its result: the
-- structs of server/xdr.h as C lays them out, `VSNFS_SVC_XDRSIZE`, and the sizes of
-- `vsnfsd_procedures1` (server/vsnfsproc.c).
use vsnfs.Base.{
  ℕ, ◌+◌, ◌-◌, ◌*◌, ◌/◌, ◌≤◌, ◌<◌, ◌≡◌, ◌≢◌, ◌⊎◌, inl, inr, List, [], ◌∷◌, ltb, if◌then◌else◌,
  arith, refl,
}
use vsnfs.ClientXdr.{Proc, null, getroot, lookup, readdir, read}

-- The hosts of the kernel, by their sizes of `int`, `long` and pointers.
pub data Host : Type 0 where
  ilp32 lp64 : Host

-- How many bytes a C type takes, and a multiple of what its address is.
pub record Layout : Type 0 where
  pub size : ℕ
  pub align : ℕ

abbrev pub scalar : ℕ → Layout
scalar bytes = record { size = bytes; align = bytes }

-- `int`, `unsigned int`, `__u32` and `__be32`
abbrev pub int32 : Layout
int32 = scalar 4

-- `long` is as long as a pointer.
abbrev pub pointer : Host → Layout
pointer ilp32 = scalar 4
pointer lp64 = scalar 8

abbrev pub chars : ℕ → Layout
chars n = record { size = n; align = 1 }

abbrev pub larger : ℕ → ℕ → ℕ
larger a b = if ltb a b then b else a

abbrev pub round_up : ℕ → ℕ → ℕ
round_up n align = (n + align - 1) / align * align

-- Each member stands at the next address that its alignment allows, and the whole is padded.
abbrev pub struct_from : Layout → List Layout → Layout
struct_from before [] = record before { size = round_up before.size before.align }
struct_from before (m ∷ ms) =
    struct_from
      (record { size = round_up before.size m.align + m.size; align = larger before.align m.align })
      ms

abbrev pub struct_of : List Layout → Layout
struct_of ms = struct_from (chars 0) ms

abbrev pub union_from : Layout → List Layout → Layout
union_from before [] = record before { size = round_up before.size before.align }
union_from before (m ∷ ms) =
    union_from (record { size = larger before.size m.size; align = larger before.align m.align }) ms

abbrev pub union_of : List Layout → Layout
union_of ms = union_from (chars 0) ms

-- `struct vsnfs_fh` of vsnfs.h
abbrev pub fh_layout : Layout
fh_layout = struct_of (chars 8 ∷ int32 ∷ [])

-- `struct vsnfsd_nullargs` to `struct vsnfsd_lookupargs`
abbrev pub args_layout : Host → Proc → Layout
args_layout h null = struct_of (int32 ∷ [])
args_layout h getroot = struct_of (pointer h ∷ int32 ∷ [])
args_layout h lookup = struct_of (fh_layout ∷ pointer h ∷ int32 ∷ [])
args_layout h readdir = struct_of (fh_layout ∷ int32 ∷ pointer h ∷ [])
args_layout h read = struct_of (fh_layout ∷ int32 ∷ int32 ∷ pointer h ∷ [])

abbrev pub res_layout : Host → Proc → Layout
res_layout h null = struct_of (int32 ∷ [])
res_layout h getroot = fh_layout
res_layout h lookup = fh_layout
res_layout h readdir = struct_of (int32 ∷ int32 ∷ pointer h ∷ int32 ∷ pointer h ∷ [])
res_layout h read = struct_of (pointer h ∷ [])

-- `union vsnfsd_xdrstore`, which has no member for the arguments of READ and none for a result.
abbrev pub xdrstore : Host → Layout
xdrstore h =
    union_of (
      args_layout h null
      ∷ args_layout h getroot
      ∷ args_layout h lookup
      ∷ args_layout h readdir
      ∷ [])

-- VSNFS_SVC_XDRSIZE, which is `vs_xdrsize`
abbrev pub vs_xdrsize : Host → ℕ
vs_xdrsize h = (xdrstore h).size

abbrev pub pc_argsize : Host → Proc → ℕ
pc_argsize h proc = (args_layout h proc).size

abbrev pub pc_ressize : Host → Proc → ℕ
pc_ressize h proc = (res_layout h proc).size

-- On both kinds of host every procedure's result fits the memory of `vs_xdrsize` bytes that a
-- request has for it, and so do its arguments, but for those of READ on a host with 32-bit
-- pointers, which take more.
pub pc_argsize-vs_xdrsize :
    (h : Host) (proc : Proc)
    → (pc_ressize h proc ≤ vs_xdrsize h)
      × (((h ≡ ilp32) × (proc ≡ read) × (vs_xdrsize h < pc_argsize h proc))
          ⊎ (((h ≡ lp64) ⊎ (proc ≢ read)) × (pc_argsize h proc ≤ vs_xdrsize h)))
pc_argsize-vs_xdrsize ilp32 null = (omega arith, inr (inr (λ h. cc), omega arith))
pc_argsize-vs_xdrsize ilp32 getroot = (omega arith, inr (inr (λ h. cc), omega arith))
pc_argsize-vs_xdrsize ilp32 lookup = (omega arith, inr (inr (λ h. cc), omega arith))
pc_argsize-vs_xdrsize ilp32 readdir = (omega arith, inr (inr (λ h. cc), omega arith))
pc_argsize-vs_xdrsize ilp32 read = (omega arith, inl (refl, refl, omega arith))
pc_argsize-vs_xdrsize lp64 null = (omega arith, inr (inl refl, omega arith))
pc_argsize-vs_xdrsize lp64 getroot = (omega arith, inr (inl refl, omega arith))
pc_argsize-vs_xdrsize lp64 lookup = (omega arith, inr (inl refl, omega arith))
pc_argsize-vs_xdrsize lp64 readdir = (omega arith, inr (inl refl, omega arith))
pc_argsize-vs_xdrsize lp64 read = (omega arith, inr (inl refl, omega arith))
