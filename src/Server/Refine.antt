-- ===== src/Server/Refine.antt =====
-- The lookup of server/vsnfsproc.c refines its abstract specification.
use vsnfs.Base.{
  ℕ, ◌≡◌, refl, ap, ◌∙◌, ◌⊎◌, List, [], ◌∷◌, Option, none, some, ◌==◌, Endian, done, >>=-eq-done,
  done-injective, arith, inl, inr, Bool-cases, Option-cases,
}
use mathlib.Core.Path.{fun_ext}
use vsnfs.Protocol.{VsnfsFh, VsnfsStat, vsnfserr}
use vsnfs.Kernel.{Strtoul}
use vsnfs.Vfs.{Vfs, Inode, FileKind, regular, directory, other}
use vsnfs.ServerXdr.{LookupArgs}
use vsnfs.Server.{Node, Kmalloc, Reply, find_node, add_slash, fh_memory, minus}
use vsnfs.Server.Lookup.{
  room, stored_path, remember, lookup_inode, lookup_child, vsnfsd_proc_lookup,
}
use vsnfs.Server.Resolve.{slashed}
use vsnfs.Server.Spec.{nodes_view, view, learn, child, LookupSpec, unknown, no_space, found}

pub add_slash-eq-done :
    (lim : ℕ) (path out : List ℕ) → add_slash lim path ≡ done out → out ≡ slashed directory path
unfolding add_slash
add_slash-eq-done lim [] out h = cc
add_slash-eq-done lim (c ∷ cs) out h = ground arith

stored_path-eq-done :
    (kind : FileKind) (path out : List ℕ)
    → stored_path kind path ≡ done out
    → out ≡ slashed kind path
stored_path-eq-done regular path out h = cc
stored_path-eq-done other path out h = cc
stored_path-eq-done directory path out h = add_slash-eq-done room path out h

-- A known inode keeps its path, and an unknown one gets a node.
learn_known :
    (ns : List Node) (ino : ℕ) (path : List ℕ) (n : Node)
    → find_node ino ns ≡ some n
    → nodes_view ns ≡ learn (nodes_view ns) ino path
learn_known ns ino path n known = fun_ext (λ j. elim (Bool-cases (ino == j)) [
  | inl same ↦ ground (arith, same, known)
  | inr other_node ↦ rw other_node refl
])

pub learn_new :
    (ns : List Node) (ino : ℕ) (path : List ℕ)
    → find_node ino ns ≡ none
    → nodes_view (record { ino = ino; path = path } ∷ ns) ≡ learn (nodes_view ns) ino path
unfolding find_node
learn_new ns ino path new = fun_ext (λ j. elim (Bool-cases (ino == j)) [
  | inl same ↦ rw (same, new) refl
  | inr other_node ↦ rw other_node refl
])

-- What `remember` does to the view: nothing with the status for no space, or a path is learnt.
remember-view :
    (e : Endian) (k : Kmalloc) (ns : List Node) (ino : ℕ) (path : List ℕ) (status : ℕ)
    (ns' : List Node) (status' : ℕ)
    → remember e k ns ino path status ≡ done (ns', status')
    → ((nodes_view ns' ≡ nodes_view ns) × (status' ≡ minus (vsnfserr e VsnfsStat.nospc)))
      ⊎ ((nodes_view ns' ≡ learn (nodes_view ns) ino path) × (status' ≡ status))
unfolding remember
remember-view e k ns ino path status ns' status' h = elim (Option-cases (find_node ino ns)) [
  | inr (n, known) ↦
      let same : ns' ≡ ns = ground (arith, known) in
      inr (ap nodes_view same ∙ learn_known ns ino path n known, ground (arith, known))
  | inl new ↦ elim (Bool-cases k.node) [
    | inr missing ↦ absurd (ground (arith, new, missing))
    | inl there ↦ elim (Bool-cases k.node_path) [
      | inr short ↦
          let same : ns' ≡ ns = ground (arith, new, there, short) in
          inl (ap nodes_view same, ground (arith, new, there, short))
      | inl fits ↦
          let same : ns' ≡ record { ino = ino; path = path } ∷ ns =
            ground (arith, new, there, fits) in
          inr (ap nodes_view same ∙ learn_new ns ino path new, ground (arith, new, there, fits))
    ]
  ]
]

module _ {File State : Type 0} (s : Strtoul) (vfs : Vfs File State) (e : Endian) (k : Kmalloc) where
  lookup_inode-Spec :
      (ns : List Node) (args : LookupArgs) (resp : VsnfsFh) (parent : Node) (inode : Option Inode)
      (r : Reply)
      → find_node (s.simple_strtoul (fh_memory e args.fh)) ns ≡ some parent
      → (vfs.path_lookup (child s vfs e parent.path args)).1 ≡ inode
      → lookup_inode e k ns resp
          (child s vfs e parent.path args)
          (vfs.path_lookup (child s vfs e parent.path args)).0
          inode
        ≡ done r
      → LookupSpec s vfs e (nodes_view ns) args resp (view r.table) r.status r.resp
  unfolding lookup_inode
  lookup_inode-Spec ns args resp parent none r known looked h = cc
  lookup_inode-Spec ns args resp parent (some inode) r known looked h =
      let path = child s vfs e parent.path args in
      let (path', stored, h') = >>=-eq-done (stored_path inode.kind path) _ h in
      let ((ns', status), kept, h'') = >>=-eq-done (remember e k ns inode.i_ino path' _) _ h' in
      let is = done-injective h'' in
      elim (remember-view e k ns inode.i_ino path' _ ns' status kept) [
        | inl (same, short) ↦ rw (← is) (no_space same short)
        | inr (learnt, ok) ↦ rw (← is) (
            found parent.path inode (rw known refl) looked
              (learnt
                ∙ ap (learn (nodes_view ns) inode.i_ino)
                    (stored_path-eq-done inode.kind path path' stored))
              ok refl)
      ]

  lookup_child-Spec :
      (ns : List Node) (args : LookupArgs) (resp : VsnfsFh) (parent : Option Node) (r : Reply)
      → find_node (s.simple_strtoul (fh_memory e args.fh)) ns ≡ parent
      → lookup_child s vfs e k ns args resp parent ≡ done r
      → LookupSpec s vfs e (nodes_view ns) args resp (view r.table) r.status r.resp
  unfolding lookup_child
  lookup_child-Spec ns args resp none r known h =
      rw (← done-injective h) (unknown (rw known refl) refl refl refl)
  lookup_child-Spec ns args resp (some parent) r known h =
      let path = child s vfs e parent.path args in
      let failed : Reply = record {
        table = some ns;
        status = minus (vsnfserr e VsnfsStat.nospc);
        resp = resp;
      } in
      let refused : failed ≡ r
          → LookupSpec s vfs e (nodes_view ns) args resp (view r.table) r.status r.resp =
        λ (same : failed ≡ r). rw (← same) (no_space refl refl) in
      elim (Bool-cases k.path) [
        | inr short ↦ refused (ground (arith, short))
        | inl there ↦ elim (Bool-cases k.nd) [
          | inr short ↦ refused (ground (arith, there, short))
          | inl fits ↦
              let looked : lookup_inode e k ns resp path (vfs.path_lookup path).0
                    (vfs.path_lookup path).1
                  ≡ done r =
                ground (arith, there, fits) in
              lookup_inode-Spec ns args resp parent (vfs.path_lookup path).1 r known refl looked
        ]
      ]

  -- A lookup that returns does to the meaning of a table that was made what its specification
  -- allows, whatever memory there is: nothing, with status 0 and the reply as it was, where the
  -- handle is not known; nothing, with the status for no space; or the inode that `path_lookup`
  -- finds gets its handle in the reply, and its number keeps its path or else gets the new one.
  pub vsnfsd_proc_lookup-LookupSpec :
      (ns : List Node) (args : LookupArgs) (resp : VsnfsFh) (r : Reply)
      → vsnfsd_proc_lookup s vfs e k (some ns) args resp ≡ done r
      → LookupSpec s vfs e (view (some ns)) args resp (view r.table) r.status r.resp
  unfolding vsnfsd_proc_lookup
  vsnfsd_proc_lookup-LookupSpec ns args resp r h = lookup_child-Spec ns args resp _ r refl h
