-- ===== src/Server/Crash/Lookup.antt =====
-- When a LOOKUP (`vsnfsd_proc_lookup`, server/vsnfsproc.c) stops the server's thread.
use vsnfs.Base.{
  ◌+◌, ◌<◌, ◌≤◌, ◌≡◌, ◌↔◌, inl, inr, refl, subst, List, Option, none, some, true, false, leb,
  Endian, oops, Fault, null_pointer, out_of_bounds, length, leb_of_le, Bool-cases, arith,
}
use vsnfs.Protocol.{VsnfsFh}
use vsnfs.Kernel.{Strtoul}
use vsnfs.Vfs.{Vfs}
use vsnfs.ServerXdr.{LookupArgs}
use vsnfs.Server.{Node, Table, Kmalloc, find_node, fh_memory}
use vsnfs.Server.Lookup.{room, lookup_child, vsnfsd_proc_lookup}
use vsnfs.Server.Spec.{child}
use vsnfs.Server.Crash.{InodeFault, inode_faults, inode_faulted, oops-injective}

module _ {File State : Type 0} (s : Strtoul) (vfs : Vfs File State) (e : Endian) (k : Kmalloc)
    (args : LookupArgs) where
  -- The table was never made; or the directory's path and the name do not fit the buffer; or it is
  -- at the inode.
  pub data LookupFault (table : Table) : Fault → Type 0 where
    no_table : table ≡ none → LookupFault table null_pointer
    long :
        (ns : List Node) (parent : Node)
        → table ≡ some ns
        → find_node (s.simple_strtoul (fh_memory e args.fh)) ns ≡ some parent
        → k.path ≡ true
        → room < args.len + length parent.path + 1
        → LookupFault table out_of_bounds
    at_inode :
        (ns : List Node) (parent : Node) (f : Fault)
        → table ≡ some ns
        → find_node (s.simple_strtoul (fh_memory e args.fh)) ns ≡ some parent
        → k.path ≡ true
        → args.len + length parent.path + 1 ≤ room
        → k.nd ≡ true
        → InodeFault k ns
            (child s vfs e parent.path args)
            (vfs.path_lookup (child s vfs e parent.path args)).1
            f
        → LookupFault table f

  module _ (ns : List Node) (resp : VsnfsFh) where
    child_faulted :
        (parent : Option Node) (f : Fault)
        → find_node (s.simple_strtoul (fh_memory e args.fh)) ns ≡ parent
        → lookup_child s vfs e k ns args resp parent ≡ oops f
        → LookupFault (some ns) f
    unfolding lookup_child
    child_faulted none f asked h = cc
    child_faulted (some parent) f asked h = elim (Bool-cases k.path) [
      | inr short ↦ absurd (ground (arith, short, h))
      | inl there ↦ elim (Bool-cases (leb (args.len + length parent.path + 1) room)) [
        | inr over ↦
            subst (λ g. LookupFault (some ns) g) (ground (arith, there, over, h))
              (long ns parent refl asked there (ground (arith, over)))
        | inl fits ↦ elim (Bool-cases k.nd) [
          | inr short ↦ absurd (ground (arith, there, fits, short, h))
          | inl room_for ↦
              let path = child s vfs e parent.path args in
              at_inode ns parent f refl asked there (ground (arith, fits)) room_for (
                inode_faulted e k ns resp path (vfs.path_lookup path).0 (vfs.path_lookup path).1 f
                  (ground (arith, there, fits, room_for, h)))
        ]
      ]
    ]

    child_long :
        (parent : Node)
        → k.path ≡ true
        → room < args.len + length parent.path + 1
        → lookup_child s vfs e k ns args resp (some parent) ≡ oops out_of_bounds
    unfolding lookup_child
    child_long parent there over =
        let long : leb (args.len + length parent.path + 1) room ≡ false = ground (arith, over) in
        elim (Bool-cases (leb (length parent.path + 1) room)) [
          | inl fits ↦ rw (there, fits, long) refl
          | inr first ↦ rw (there, first) refl
        ]

    child_faults :
        (parent : Node) (f : Fault)
        → k.path ≡ true
        → args.len + length parent.path + 1 ≤ room
        → k.nd ≡ true
        → InodeFault k ns
            (child s vfs e parent.path args)
            (vfs.path_lookup (child s vfs e parent.path args)).1
            f
        → lookup_child s vfs e k ns args resp (some parent) ≡ oops f
    unfolding lookup_child
    child_faults parent f there fits room_for fault =
        let path = child s vfs e parent.path args in
        let ran =
          inode_faults e k ns resp path (vfs.path_lookup path).0 (vfs.path_lookup path).1 f fault in
        rw
          (
            there,
            room_for,
            leb_of_le (length parent.path + 1) room (omega (arith, fits)),
            leb_of_le (args.len + length parent.path + 1) room fits,
          )
          ran

  faulted :
      (table : Table) (resp : VsnfsFh) (f : Fault)
      → vsnfsd_proc_lookup s vfs e k table args resp ≡ oops f
      → LookupFault table f
  unfolding vsnfsd_proc_lookup
  faulted none resp f h = subst (λ g. LookupFault none g) (oops-injective h) (no_table refl)
  faulted (some ns) resp f h = child_faulted ns resp _ f refl h

  faults :
      (table : Table) (resp : VsnfsFh) (f : Fault)
      → LookupFault table f
      → vsnfsd_proc_lookup s vfs e k table args resp ≡ oops f
  unfolding vsnfsd_proc_lookup
  faults table resp f (no_table unmade) = rw unmade refl
  faults table resp f (long ns parent made asked there over) =
      rw (made, asked) (child_long ns resp parent there over)
  faults table resp f (at_inode ns parent g made asked there fits room_for fault) =
      rw (made, asked) (child_faults ns resp parent f there fits room_for fault)

  -- A LOOKUP stops the server's thread exactly if the lookup table was never made (a null pointer); or
  -- memory for the path is there and the known directory's path, the name and a NUL do not fit the
  -- buffer (out of bounds); or they fit, memory for the lookup is there, and at the child's path
  -- `path_lookup` finds no inode (a null pointer), or finds a directory whose path is empty or has
  -- no slash at its end and no room for one (out of bounds), or finds an inode that is not known
  -- while there is no memory for its node (a null pointer). In all other cases it returns.
  pub vsnfsd_proc_lookup-LookupFault :
      (table : Table) (resp : VsnfsFh) (f : Fault)
      → (vsnfsd_proc_lookup s vfs e k table args resp ≡ oops f) ↔ LookupFault table f
  vsnfsd_proc_lookup-LookupFault table resp f = (faulted table resp f, faults table resp f)
