-- ===== src/Server/Same.antt =====
-- Two lookup tables (server/vsnfsproc.c) that name the same paths: what the procedures tell apart.
use vsnfs.Base.{
  ℕ, ◌≡◌, refl, sym, ap, ◌∙◌, List, [], ◌∷◌, ◌++◌, Option, none, some, ◌==◌, if◌then◌else◌, Bool,
  true, false, Bool-cases, Option-cases, inl, inr, ℤ, pos, neg, Endian, Run, done, out_of_bounds,
  ◌>>◌, need, leb, Agree, Agree->>=, Agree-refl, Agree-then, Agree-need, Agree-if, length, take,
  ◌+◌,
}
use vsnfs.Protocol.{VsnfsFh, VsnfsStat, vsnfserr, maxpathlen}
use vsnfs.Kernel.{Sunrpc, Strtoul}
use vsnfs.Vfs.{Vfs, Inode, FileKind, regular, directory, other}
use vsnfs.ServerXdr.{LookupArgs, GetrootArgs, ReaddirArgs, ReadArgs, ReaddirRes}
use vsnfs.Server.{
  Node, Table, Kmalloc, Reply, find_node, fh_memory, minus, word_of_int, vsnfsd_fh_to_path, strncpy,
  until_nul, add_slash,
}
use mathlib.Core.Option.{some_inj}
use vsnfs.Server.Lookup.{
  room, stored_path, remember, lookup_inode, lookup_child, vsnfsd_proc_lookup,
}
use vsnfs.Server.Getroot.{vsnfsd_proc_getroot, getroot_inode}
use vsnfs.Server.Files.{vsnfsd_open, vsnfsd_proc_readdir, vsnfsd_proc_read}
use vsnfs.Server.Spec.{path_of, nodes_view}
pub mod Files

abbrev pub SameNodes : List Node → List Node → Type 0
SameNodes ns ns' = (ino : ℕ) → nodes_view ns ino ≡ nodes_view ns' ino

-- Tables that were both not made yet, or that have the same path for each inode number.
abbrev pub Same : Table → Table → Type 0
Same none none = Unit
Same (some ns) (some ns') = SameNodes ns ns'
Same none (some ns') = ⊥
Same (some ns) none = ⊥

pub Same-refl : (t : Table) → Same t t
Same-refl none = tt
Same-refl (some ns) = λ ino. refl

abbrev pub SameReply : Reply → Reply → Type 0
SameReply r r' = Same r.table r'.table × (r.status ≡ r'.status) × (r.resp ≡ r'.resp)

abbrev SameKept : List Node × ℕ → List Node × ℕ → Type 0
SameKept kept kept' = SameNodes kept.0 kept'.0 × (kept.1 ≡ kept'.1)

SameNodes-cons : (ns ns' : List Node) (n : Node) → SameNodes ns ns' → SameNodes (n ∷ ns) (n ∷ ns')
unfolding find_node
SameNodes-cons ns ns' n same ino = elim (Bool-cases (n.ino == ino)) [
  | inl this ↦ rw this refl
  | inr another ↦ rw another (same ino)
]

remember-Same :
    (e : Endian) (k : Kmalloc) (ns ns' : List Node) (ino : ℕ) (path : List ℕ) (status : ℕ)
    → SameNodes ns ns'
    → Agree SameKept (remember e k ns ino path status) (remember e k ns' ino path status)
unfolding remember
remember-Same e k ns ns' ino path status same =
    let paths = same ino in
    elim (Option-cases (find_node ino ns)) [
      | inl new ↦ elim (Option-cases (find_node ino ns')) [
        | inl new' ↦
            rw (remember, new, new')
              (elim (Bool-cases k.node) [
                | inr missing ↦ rw missing refl
                | inl there ↦ elim (Bool-cases k.node_path) [
                  | inr short ↦ rw (there, short) (same, refl)
                  | inl fits ↦ rw (there, fits) (SameNodes-cons ns ns' _ same, refl)
                ]
              ])
        | inr (n', known') ↦ absurd (cc (sym (ap path_of new) ∙ paths ∙ ap path_of known'))
      ]
      | inr (n, known) ↦ elim (Option-cases (find_node ino ns')) [
        | inl new' ↦ absurd (cc (sym (ap path_of known) ∙ paths ∙ ap path_of new'))
        | inr (n', known') ↦ rw (remember, known, known') (same, refl)
      ]
    ]

module _ {File State : Type 0} (s : Strtoul) (vfs : Vfs File State) (e : Endian) (k : Kmalloc) where
  lookup_inode-Same :
      (ns ns' : List Node) (resp : VsnfsFh) (path : List ℕ) (rc : ℤ) (inode : Option Inode)
      → SameNodes ns ns'
      → Agree SameReply
          (lookup_inode e k ns resp path rc inode)
          (lookup_inode e k ns' resp path rc inode)
  unfolding lookup_inode
  lookup_inode-Same ns ns' resp path rc none same = refl
  lookup_inode-Same ns ns' resp path rc (some inode) same =
      Agree-then SameReply (stored_path inode.kind path) _ _ (λ path'.
        Agree->>= SameKept SameReply (remember e k ns inode.i_ino path' (word_of_int rc))
          (remember e k ns' inode.i_ino path' (word_of_int rc)) _ _
          (remember-Same e k ns ns' inode.i_ino path' (word_of_int rc) same)
          (λ kept kept' (alike, status). (alike, status, refl)))

  lookup_child-Same :
      (ns ns' : List Node) (args : LookupArgs) (resp : VsnfsFh) (parent parent' : Option Node)
      → SameNodes ns ns'
      → path_of parent ≡ path_of parent'
      → Agree SameReply
          (lookup_child s vfs e k ns args resp parent)
          (lookup_child s vfs e k ns' args resp parent')
  unfolding lookup_child
  lookup_child-Same ns ns' args resp none none same is = (same, refl, refl)
  lookup_child-Same ns ns' args resp none (some n) same is = absurd (cc is)
  lookup_child-Same ns ns' args resp (some n) none same is = absurd (cc is)
  lookup_child-Same ns ns' args resp (some n) (some n') same is =
      let paths : n.path ≡ n'.path = some_inj.0 is in
      let len = args.len + length n'.path in
      let path = until_nul (n'.path ++ take args.len args.filename) in
      let no_space : List Node → Run Reply = λ left.
        done (record {
          table = some left;
          status = minus (vsnfserr e VsnfsStat.nospc);
          resp = resp;
        }) in
      let looked : List Node → Run Reply =
        λ left. lookup_inode e k left resp path (vfs.path_lookup path).0 (vfs.path_lookup path).1 in
      let tried : List Node → Run Reply = λ left. if k.nd then looked left else no_space left in
      let fits : List Node → Run Reply =
        λ left. need (leb (len + 1) room) out_of_bounds >> tried left in
      rw paths (
        Agree-if SameReply k.path (need (leb (length n'.path + 1) room) out_of_bounds >> fits ns)
          (no_space ns) (need (leb (length n'.path + 1) room) out_of_bounds >> fits ns')
          (no_space ns')
          (Agree-need SameReply (leb (length n'.path + 1) room) out_of_bounds (fits ns) (fits ns') (
            Agree-need SameReply (leb (len + 1) room) out_of_bounds (tried ns) (tried ns') (
              Agree-if SameReply k.nd (looked ns) (no_space ns) (looked ns') (no_space ns')
                (lookup_inode-Same ns ns' resp path (vfs.path_lookup path).0
                  (vfs.path_lookup path).1 same)
                (same, refl, refl))))
          (same, refl, refl))

  pub vsnfsd_proc_lookup-Same :
      (t t' : Table) (args : LookupArgs) (resp : VsnfsFh)
      → Same t t'
      → Agree SameReply
          (vsnfsd_proc_lookup s vfs e k t args resp)
          (vsnfsd_proc_lookup s vfs e k t' args resp)
  unfolding vsnfsd_proc_lookup
  vsnfsd_proc_lookup-Same none none args resp same = refl
  vsnfsd_proc_lookup-Same (some ns) (some ns') args resp same =
      lookup_child-Same ns ns' args resp _ _ same (same (s.simple_strtoul (fh_memory e args.fh)))
  vsnfsd_proc_lookup-Same none (some ns') args resp same = absurd same
  vsnfsd_proc_lookup-Same (some ns) none args resp same = absurd same

  getroot_kind-Same :
      (t t' : Table) (resp : VsnfsFh) (path : List ℕ) (ret : ℤ) (ino : ℕ) (kind : FileKind)
      → Same t t'
      → Agree SameReply
          (getroot_inode e k t resp path ret (some (record { i_ino = ino; kind = kind })))
          (getroot_inode e k t' resp path ret (some (record { i_ino = ino; kind = kind })))
  unfolding getroot_inode
  getroot_kind-Same t t' resp path ret ino regular same = (same, refl, refl)
  getroot_kind-Same t t' resp path ret ino directory same =
      Agree-refl SameReply _ (λ r. (Same-refl r.table, refl, refl))
  getroot_kind-Same t t' resp path ret ino other same =
      Agree-refl SameReply _ (λ r. (Same-refl r.table, refl, refl))

  getroot_inode-Same :
      (t t' : Table) (resp : VsnfsFh) (path : List ℕ) (ret : ℤ) (root : Option Inode)
      → Same t t'
      → Agree SameReply
          (getroot_inode e k t resp path ret root)
          (getroot_inode e k t' resp path ret root)
  unfolding getroot_inode
  getroot_inode-Same t t' resp path ret none same = refl
  getroot_inode-Same t t' resp path ret (some root) same =
      getroot_kind-Same t t' resp path ret root.i_ino root.kind same

  pub vsnfsd_proc_getroot-Same :
      (t t' : Table) (args : GetrootArgs) (resp : VsnfsFh)
      → Same t t'
      → Agree SameReply
          (vsnfsd_proc_getroot vfs e k t args resp)
          (vsnfsd_proc_getroot vfs e k t' args resp)
  unfolding vsnfsd_proc_getroot
  vsnfsd_proc_getroot-Same t t' args resp same =
      Agree-if SameReply k.nd _ _ _ _
        (Agree-if SameReply k.path _ _ _ _
          (Agree-then SameReply (add_slash (args.len + 2) (take args.len args.path)) _ _
            (λ raw. getroot_inode-Same t t' resp _ _ _ same))
          (same, refl, refl))
        (same, refl, refl)
