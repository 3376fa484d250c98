-- ===== src/Server/Crash/Getroot.antt =====
-- When a GETROOT (`vsnfsd_proc_getroot`, server/vsnfsproc.c) stops the server's thread.
use vsnfs.Base.{
  ℕ, ◌+◌, ◌≤◌, ◌≡◌, ◌≢◌, ◌↔◌, ◌⊎◌, inl, inr, refl, subst, List, [], ◌∷◌, Option, none, some, true,
  false, ℤ, Endian, done, oops, Fault, null_pointer, out_of_bounds, length, length-take, take,
  Bool-cases, arith,
}
use vsnfs.Protocol.{VsnfsFh}
use vsnfs.Vfs.{Vfs, Inode, FileKind, regular, directory, other}
use vsnfs.ServerXdr.{GetrootArgs}
use vsnfs.Server.{Table, Kmalloc, add_slash, until_nul}
use vsnfs.Server.Getroot.{getroot_inode, vsnfsd_proc_getroot}
use vsnfs.Server.Resolve.{slashed, add_slash-slashed}
use vsnfs.Server.Crash.{oops-injective}

-- From `path_lookup` on: there is no inode, or it is no file and there is no memory for its node.
pub data RootFault (k : Kmalloc) (found : Option Inode) : Fault → Type 0 where
  missing : found ≡ none → RootFault k found null_pointer
  no_node :
      (root : Inode)
      → found ≡ some root
      → root.kind ≢ regular
      → k.node ≡ false
      → RootFault k found null_pointer

module _ (e : Endian) (k : Kmalloc) (table : Table) (resp : VsnfsFh) (path : List ℕ) (rc : ℤ) where
  kind_faulted :
      (ino : ℕ) (kind : FileKind) (f : Fault)
      → getroot_inode e k table resp path rc (some (record { i_ino = ino; kind = kind })) ≡ oops f
      → (kind ≢ regular) × (k.node ≡ false) × (null_pointer ≡ f)
  unfolding getroot_inode
  kind_faulted ino regular f h = cc
  kind_faulted ino directory f h = elim (Bool-cases k.node) [
    | inr short ↦ (λ same. cc, short, oops-injective (rw short at h))
    | inl there ↦ elim (Bool-cases k.node_path) [
      | inl fits ↦ cc (rw (there, fits) at h)
      | inr full ↦ cc (rw (there, full) at h)
    ]
  ]
  kind_faulted ino other f h = elim (Bool-cases k.node) [
    | inr short ↦ (λ same. cc, short, oops-injective (rw short at h))
    | inl there ↦ elim (Bool-cases k.node_path) [
      | inl fits ↦ cc (rw (there, fits) at h)
      | inr full ↦ cc (rw (there, full) at h)
    ]
  ]

  kind_faults :
      (ino : ℕ) (kind : FileKind)
      → kind ≢ regular
      → k.node ≡ false
      → getroot_inode e k table resp path rc (some (record { i_ino = ino; kind = kind }))
        ≡ oops null_pointer
  unfolding getroot_inode
  kind_faults ino regular no_file short = absurd (no_file refl)
  kind_faults ino directory no_file short = rw short refl
  kind_faults ino other no_file short = rw short refl

text_split :
    (raw : List ℕ) (lim : ℕ)
    → length raw + 2 ≤ lim
    → ((raw ≡ []) × (add_slash lim raw ≡ oops out_of_bounds))
      ⊎ ((raw ≢ []) × (add_slash lim raw ≡ done (slashed directory raw)))
unfolding add_slash
text_split [] lim fits = inl (refl, refl)
text_split (c ∷ cs) lim fits =
    inr (λ h. cc, unfold add_slash in add_slash-slashed lim (c ∷ cs) (λ h. cc) fits)

module _ {File State : Type 0} (vfs : Vfs File State) (e : Endian) (k : Kmalloc)
    (args : GetrootArgs) where
  -- The path that is asked for, with a slash at its end.
  abbrev pub asked_path : List ℕ
  asked_path = until_nul (slashed directory (take args.len args.path))

  -- The path is empty, or it is at the inode.
  pub data GetrootFault : Fault → Type 0 where
    empty : take args.len args.path ≡ [] → GetrootFault out_of_bounds
    at_root :
        (f : Fault)
        → take args.len args.path ≢ []
        → RootFault k (vfs.path_lookup asked_path).1 f
        → GetrootFault f

  module _ (table : Table) (resp : VsnfsFh) where
    inode_faulted :
        (found : Option Inode) (rc : ℤ) (f : Fault)
        → getroot_inode e k table resp asked_path rc found ≡ oops f
        → RootFault k found f
    unfolding getroot_inode
    inode_faulted none rc f h = subst (λ g. RootFault k none g) (oops-injective h) (missing refl)
    inode_faulted (some root) rc f h =
        let (no_file, short, is) =
          kind_faulted e k table resp asked_path rc root.i_ino root.kind f h in
        subst (λ g. RootFault k (some root) g) is (no_node root refl no_file short)

    inode_faults :
        (found : Option Inode) (rc : ℤ) (f : Fault)
        → RootFault k found f
        → getroot_inode e k table resp asked_path rc found ≡ oops f
    unfolding getroot_inode
    inode_faults found rc f (missing none_there) = rw none_there refl
    inode_faults found rc f (no_node root there no_file short) =
        rw there (kind_faults e k table resp asked_path rc root.i_ino root.kind no_file short)

    text_cases :
        ((take args.len args.path ≡ [])
          × (add_slash (args.len + 2) (take args.len args.path) ≡ oops out_of_bounds))
        ⊎ ((take args.len args.path ≢ [])
            × (add_slash (args.len + 2) (take args.len args.path)
                ≡ done (slashed directory (take args.len args.path))))
    text_cases =
        text_split (take args.len args.path) (args.len + 2)
          (omega (arith, length-take args.len args.path))

    faulted :
        (f : Fault)
        → vsnfsd_proc_getroot vfs e k table args resp ≡ oops f
        → (k.nd ≡ true) × (k.path ≡ true) × GetrootFault f
    unfolding vsnfsd_proc_getroot
    faulted f h = elim (Bool-cases k.nd) [
      | inr short ↦ cc (rw short at h)
      | inl nd ↦ elim (Bool-cases k.path) [
        | inr short ↦ cc (rw (nd, short) at h)
        | inl room ↦ elim text_cases [
          | inl (nothing, stopped) ↦ (
            nd,
            room,
            subst (λ g. GetrootFault g) (oops-injective (rw (nd, room, stopped) at h))
                (empty nothing),
          )
          | inr (something, made) ↦ (
            nd,
            room,
            at_root f something (
                inode_faulted (vfs.path_lookup asked_path).1 (vfs.path_lookup asked_path).0 f
                  (rw (nd, room, made) at h)),
          )
        ]
      ]
    ]

    faults :
        (f : Fault)
        → k.nd ≡ true
        → k.path ≡ true
        → GetrootFault f
        → vsnfsd_proc_getroot vfs e k table args resp ≡ oops f
    unfolding vsnfsd_proc_getroot
    faults f nd room (empty nothing) = elim text_cases [
      | inl (_, stopped) ↦ rw (nd, room, stopped) refl
      | inr (something, _) ↦ absurd (something nothing)
    ]
    faults f nd room (at_root g something fault) = elim text_cases [
      | inl (nothing, _) ↦ absurd (something nothing)
      | inr (_, made) ↦
          rw (nd, room, made)
            (inode_faults (vfs.path_lookup asked_path).1 (vfs.path_lookup asked_path).0 f fault)
    ]

    -- A GETROOT stops the server's thread exactly if memory for the lookup and the path is there, and
    -- the path is empty (out of bounds); or with a slash at its end, and up to its first NUL,
    -- `path_lookup` finds no inode for it (a null pointer), or one of another kind than a regular file, while there is no memory for
    -- its node (a null pointer). In all other cases it returns, whatever the table is.
    pub vsnfsd_proc_getroot-GetrootFault :
        (f : Fault)
        → (vsnfsd_proc_getroot vfs e k table args resp ≡ oops f)
          ↔ ((k.nd ≡ true) × (k.path ≡ true) × GetrootFault f)
    vsnfsd_proc_getroot-GetrootFault f = (faulted f, λ h. faults f h.0 h.1 h.2)
