-- ===== src/Server/Crash.antt =====
-- Where `vsnfsd_proc_lookup` (server/vsnfsproc.c) stops the server's thread, from `path_lookup` on.
use vsnfs.Base.{
  ℕ, ◌≢◌, ◌∙◌, ◌+◌, ◌<◌, ◌≤◌, ◌≡◌, ◌↔◌, ◌⊎◌, inl, inr, refl, subst, sym, List, [], ◌∷◌, ◌++◌,
  Option, none, some, Bool, true, false, leb, ℤ, Endian, Run, done, oops, Fault, null_pointer,
  out_of_bounds, length, leb_of_le, Run-cases, Bool-cases, Option-cases, arith, ◌>>=◌,
}
use vsnfs.Protocol.{VsnfsFh}
use vsnfs.Kernel.{Strtoul}
use vsnfs.Vfs.{Vfs, Inode, FileKind, regular, directory, other}
use vsnfs.ServerXdr.{LookupArgs}
use vsnfs.Server.{
  word_of_int, Node, Table, Kmalloc, Reply, find_node, fh_memory, ends_in_slash, add_slash,
}
use vsnfs.Server.Lookup.{
  room, stored_path, remember, lookup_inode, lookup_child, vsnfsd_proc_lookup,
}
use vsnfs.Server.Resolve.{slashed}
use vsnfs.Server.Spec.{child}
pub mod Lookup
pub mod Getroot

-- A slash is to be put behind the path, and the path is empty or the buffer has no room for it.
abbrev pub IsUnslashable : FileKind → List ℕ → Type 0
IsUnslashable directory path =
    (path ≡ []) ⊎ ((ends_in_slash path ≡ false) × (room < length path + 2))
IsUnslashable regular path = ⊥
IsUnslashable other path = ⊥

-- From `path_lookup` on: there is no inode; or its path gets no slash; or there is no memory for a
-- new node.
pub data InodeFault (k : Kmalloc) (ns : List Node) (path : List ℕ) (found : Option Inode)
    : Fault → Type 0 where
  missing : found ≡ none → InodeFault k ns path found null_pointer
  unslashed :
      (inode : Inode)
      → found ≡ some inode
      → IsUnslashable inode.kind path
      → InodeFault k ns path found out_of_bounds
  no_node :
      (inode : Inode)
      → found ≡ some inode
      → ¬ IsUnslashable inode.kind path
      → find_node inode.i_ino ns ≡ none
      → k.node ≡ false
      → InodeFault k ns path found null_pointer

slash_cases :
    (path : List ℕ)
    → (IsUnslashable directory path × (add_slash room path ≡ oops out_of_bounds))
      ⊎ ((¬ IsUnslashable directory path) × (add_slash room path ≡ done (slashed directory path)))
unfolding add_slash
slash_cases [] = inl (inl refl, refl)
slash_cases (c ∷ cs) =
    let path : List ℕ = c ∷ cs in
    elim (Bool-cases (ends_in_slash path)) [
      | inl ends ↦ inr (
        λ h. elim h [ inl empty ↦ cc | inr (open_end, _) ↦ cc (sym ends ∙ open_end) ],
        rw ends refl,
      )
      | inr open_end ↦ elim (Bool-cases (leb (length path + 2) room)) [
        | inl fits ↦ inr (
          λ h. elim h [ inl empty ↦ cc | inr (_, long) ↦ absurd (ground (arith, fits, long)) ],
          rw (open_end, fits) refl,
        )
        | inr long ↦ inl (inr (open_end, ground (arith, long)), rw (open_end, long) refl)
      ]
    ]

kind_cases :
    (kind : FileKind) (path : List ℕ)
    → (IsUnslashable kind path × (stored_path kind path ≡ oops out_of_bounds))
      ⊎ ((¬ IsUnslashable kind path) × (stored_path kind path ≡ done (slashed kind path)))
kind_cases directory path = slash_cases path
kind_cases regular path = inr (λ h. h, refl)
kind_cases other path = inr (λ h. h, refl)

remember_cases :
    (e : Endian) (k : Kmalloc) (ns : List Node) (ino : ℕ) (path : List ℕ) (status : ℕ)
    → ((find_node ino ns ≡ none)
        × (k.node ≡ false)
        × (remember e k ns ino path status ≡ oops null_pointer))
      ⊎ (((f : Fault) → remember e k ns ino path status ≢ oops f)
          × (¬ ((find_node ino ns ≡ none) × (k.node ≡ false))))
unfolding remember
remember_cases e k ns ino path status = elim (Option-cases (find_node ino ns)) [
  | inr (n, old) ↦ inr (λ f h. ground (arith, old, h), λ h. ground (arith, old, h.0))
  | inl new ↦ elim (Bool-cases k.node) [
    | inr short ↦ inl (new, short, ground (arith, new, short))
    | inl there ↦ inr (
      λ f h. elim (Bool-cases k.node_path) [
        | inl p ↦ ground (arith, new, there, p, h)
        | inr p ↦ ground (arith, new, there, p, h)
      ],
      λ h. cc (sym there ∙ h.1),
    )
  ]
]

pub oops-injective : {A : Type 0} {f g : Fault} → ◌≡◌ {A = Run A} (oops f) (oops g) → f ≡ g
oops-injective h = cc

module _ (e : Endian) (k : Kmalloc) (ns : List Node) (resp : VsnfsFh) (path : List ℕ) (rc : ℤ) where
  pub inode_faults :
      (found : Option Inode) (f : Fault)
      → InodeFault k ns path found f
      → lookup_inode e k ns resp path rc found ≡ oops f
  unfolding lookup_inode
  inode_faults found f (missing none_there) = rw none_there refl
  inode_faults found f (unslashed inode there bad) = elim (kind_cases inode.kind path) [
    | inl (_, stored) ↦ rw (there, stored) refl
    | inr (good, _) ↦ absurd (good bad)
  ]
  inode_faults found f (no_node inode there good new short) = elim (kind_cases inode.kind path) [
    | inl (bad, _) ↦ absurd (good bad)
    | inr (_, stored) ↦
        elim (remember_cases e k ns inode.i_ino (slashed inode.kind path) (word_of_int rc)) [
          | inl (_, _, ran) ↦ rw (there, stored, ran) refl
          | inr (_, fine) ↦ absurd (fine (new, short))
        ]
  ]

  pub inode_faulted :
      (found : Option Inode) (f : Fault)
      → lookup_inode e k ns resp path rc found ≡ oops f
      → InodeFault k ns path found f
  unfolding lookup_inode
  inode_faulted none f h =
      subst (λ g. InodeFault k ns path none g) (oops-injective h) (missing refl)
  inode_faulted (some inode) f h =
      let text = slashed inode.kind path in
      elim (kind_cases inode.kind path) [
        | inl (bad, stored) ↦
            subst (λ g. InodeFault k ns path (some inode) g) (oops-injective (rw stored at h))
              (unslashed inode refl bad)
        | inr (good, stored) ↦ elim (remember_cases e k ns inode.i_ino text (word_of_int rc)) [
          | inl (new, short, ran) ↦
              subst (λ g. InodeFault k ns path (some inode) g)
                (oops-injective (rw (stored, ran) at h)) (no_node inode refl good new short)
          | inr (never, _) ↦ elim (Run-cases (remember e k ns inode.i_ino text (word_of_int rc))) [
            | inl (a, ran) ↦ cc (rw (stored, ran) at h)
            | inr (g, ran) ↦ absurd (never g ran)
          ]
        ]
      ]
