-- ===== src/Server/Table.antt =====
-- What holds of the server's lookup table whatever the clients ask: server/vsnfsproc.c.
use vsnfs.Base.{
  ℕ, zero, suc, ◌+◌, ◌≤◌, ◌≡◌, ◌≢◌, inl, inr, refl, subst, List, [], ◌∷◌, ◌++◌, Option, none, some,
  false, ℤ, Endian, done, >>=-eq-done, done-injective, length, take, length-append, length-take,
  arith, Bool-cases, Run-cases,
}
use vsnfs.Protocol.{VsnfsFh}
use vsnfs.Kernel.{Strtoul}
use vsnfs.Vfs.{Vfs, Inode, FileKind, regular, directory, other}
use vsnfs.ServerXdr.{has_nul, GetrootArgs, LookupArgs}
use vsnfs.Server.{
  Node, Table, Kmalloc, Reply, find_node, until_nul, add_slash, ends_in_slash, word_of_int,
}
use vsnfs.Server.Texts.{
  has_nul-until_nul, length-until_nul, until_nul_all, has_nul-append, until_nul-append-ne-nil,
}
use vsnfs.Server.Lookup.{
  room, stored_path, remember, lookup_inode, lookup_child, vsnfsd_proc_lookup,
}
use vsnfs.Server.Getroot.{fresh_table, getroot_inode, vsnfsd_proc_getroot}

-- A C string that is not empty, of at most so many bytes.
abbrev pub IsText : ℕ → List ℕ → Type 0
IsText max path = (has_nul path ≡ false) × (path ≢ []) × (length path ≤ max)

-- Each inode number has one node, and each path is such a string. The root's may have a slash more
-- than VSNFS_MAXPATHLEN bytes.
abbrev pub IsTable : List Node → Type 0
IsTable [] = Unit {0}
IsTable (n ∷ ns) = (find_node n.ino ns ≡ none) × IsText room n.path × IsTable ns

-- A child's path is a C string again.
until_nul-IsText :
    (max m : ℕ) (xs ys : List ℕ)
    → IsText m xs
    → length xs + length ys ≤ max
    → IsText max (until_nul (xs ++ ys))
until_nul-IsText max m xs ys t h = (
  has_nul-until_nul (xs ++ ys),
  until_nul-append-ne-nil xs ys t.0 t.1,
  omega (arith, length-until_nul (xs ++ ys), length-append xs ys),
)

pub find_node-IsText :
    (ino : ℕ) (ns : List Node) (n : Node)
    → IsTable ns
    → find_node ino ns ≡ some n
    → IsText room n.path
unfolding find_node
find_node-IsText ino [] n t h = cc
find_node-IsText ino (m ∷ ns) n t h = ground (arith, find_node-IsText ino ns n t.2)

-- A slash is appended only where the buffer has room for it.
pub add_slash-IsText :
    (max lim : ℕ) (path path' : List ℕ)
    → lim ≤ suc max
    → has_nul path ≡ false
    → length path ≤ max
    → add_slash lim path ≡ done path'
    → IsText max path'
unfolding add_slash
add_slash-IsText max lim [] path' b t l h = cc
add_slash-IsText max lim (c ∷ cs) path' b t l h = elim (Bool-cases (ends_in_slash (c ∷ cs))) [
  | inl ends ↦ ground arith
  | inr open_end ↦ ground (
    arith,
    has_nul-append (c ∷ cs) (b'/' ∷ []) t (unfold has_nul in refl),
    length-append (c ∷ cs) (b'/' ∷ []),
  )
]

pub stored_path-IsText :
    (kind : FileKind) (path path' : List ℕ)
    → IsText room path
    → stored_path kind path ≡ done path'
    → IsText room path'
stored_path-IsText regular path path' t h = ground arith
stored_path-IsText directory path path' t h =
    add_slash-IsText room room path path' (omega arith) t.0 t.2 h
stored_path-IsText other path path' t h = ground arith

pub remember-IsTable :
    (e : Endian) (k : Kmalloc) (ns : List Node) (ino : ℕ) (path : List ℕ) (status : ℕ)
    (ns' : List Node) (status' : ℕ)
    → IsTable ns
    → IsText room path
    → remember e k ns ino path status ≡ done (ns', status')
    → IsTable ns'
unfolding remember
remember-IsTable e k ns ino path status ns' status' t p h = ground arith

-- A path keeps its meaning: whatever the table says of an inode, it goes on saying.
pub remember-keeps :
    (e : Endian) (k : Kmalloc) (ns : List Node) (ino : ℕ) (path : List ℕ) (status : ℕ)
    (ns' : List Node) (status' : ℕ) (i : ℕ) (n : Node)
    → remember e k ns ino path status ≡ done (ns', status')
    → find_node i ns ≡ some n
    → find_node i ns' ≡ some n
unfolding remember
remember-keeps e k ns ino path status ns' status' i n h f = ground arith

abbrev pub IsTableState : Table → Type 0
IsTableState none = Unit {0}
IsTableState (some ns) = IsTable ns

lookup_inode-IsTableState :
    (e : Endian) (k : Kmalloc) (ns : List Node) (resp : VsnfsFh) (path : List ℕ) (rc : ℤ)
    (inode : Option Inode) (r : Reply)
    → IsTable ns
    → IsText room path
    → lookup_inode e k ns resp path rc inode ≡ done r
    → IsTableState r.table
unfolding lookup_inode
lookup_inode-IsTableState e k ns resp path rc none r t p h = cc
lookup_inode-IsTableState e k ns resp path rc (some inode) r t p h =
    let (path', stored, h') = >>=-eq-done (stored_path inode.kind path) _ h in
    let ((ns', status), kept, h'') = >>=-eq-done (remember e k ns inode.i_ino path' _) _ h' in
    let good : IsTable ns' =
      remember-IsTable e k ns inode.i_ino path' _ ns' status t
        (stored_path-IsText inode.kind path path' p stored) kept in
    subst (λ q. IsTableState q.table) (done-injective h'') good

pub has_nul-take : (n : ℕ) (xs : List ℕ) → has_nul xs ≡ false → has_nul (take n xs) ≡ false
unfolding has_nul
has_nul-take zero xs h = refl
has_nul-take (suc n) [] h = refl
has_nul-take (suc n) (c ∷ cs) h = ground (arith, has_nul-take n cs)

fresh_table-IsTableState :
    (e : Endian) (k : Kmalloc) (ino : ℕ) (path : List ℕ) (status : ℕ) (p : Table × ℕ)
    → IsText room path
    → fresh_table e k ino path status ≡ done p
    → IsTableState p.0
unfolding fresh_table find_node
fresh_table-IsTableState e k ino path status p t h = ground arith

module _ (e : Endian) (k : Kmalloc) (table : Table) (resp : VsnfsFh) (path : List ℕ) where
  getroot_kind-IsTableState :
      (ret : ℤ) (ino : ℕ) (kind : FileKind) (r : Reply)
      → IsTableState table
      → IsText room path
      → getroot_inode e k table resp path ret (some (record { i_ino = ino; kind = kind })) ≡ done r
      → IsTableState r.table
  unfolding getroot_inode
  getroot_kind-IsTableState ret ino regular r t p h = ground arith
  getroot_kind-IsTableState ret ino directory r t p h =
      let (q, made, h') = >>=-eq-done (fresh_table e k ino path (word_of_int ret)) _ h in
      subst (λ a. IsTableState a.table) (done-injective h')
        (fresh_table-IsTableState e k ino path _ q p made)
  getroot_kind-IsTableState ret ino other r t p h =
      let (q, made, h') = >>=-eq-done (fresh_table e k ino path (word_of_int ret)) _ h in
      subst (λ a. IsTableState a.table) (done-injective h')
        (fresh_table-IsTableState e k ino path _ q p made)

  getroot_inode-IsTableState :
      (ret : ℤ) (inode : Option Inode) (r : Reply)
      → IsTableState table
      → IsText room path
      → getroot_inode e k table resp path ret inode ≡ done r
      → IsTableState r.table
  getroot_inode-IsTableState ret none r t p h = unfold getroot_inode in cc
  getroot_inode-IsTableState ret (some inode) r t p h =
      getroot_kind-IsTableState ret inode.i_ino inode.kind r t p h

module _ {File State : Type 0} (s : Strtoul) (vfs : Vfs File State) (e : Endian) (k : Kmalloc) where
  lookup_child-IsTableState :
      (ns : List Node) (args : LookupArgs) (resp : VsnfsFh) (parent : Option Node) (r : Reply)
      → IsTable ns
      → ((n : Node) → parent ≡ some n → IsText room n.path)
      → lookup_child s vfs e k ns args resp parent ≡ done r
      → IsTableState r.table
  unfolding lookup_child
  lookup_child-IsTableState ns args resp none r t p h = ground arith
  lookup_child-IsTableState ns args resp (some n) r t p h =
      let name = take args.len args.filename in
      let path = until_nul (n.path ++ name) in
      ground (
        arith,
        length-take args.len args.filename,
        until_nul-IsText room room n.path name (p n refl),
        lookup_inode-IsTableState e k ns resp path (vfs.path_lookup path).0 (vfs.path_lookup path).1
            r,
      )

  -- No lookup spoils the table, whatever handle and name a client sends.
  pub lookup-IsTableState :
      (table : Table) (args : LookupArgs) (resp : VsnfsFh) (r : Reply)
      → IsTableState table
      → vsnfsd_proc_lookup s vfs e k table args resp ≡ done r
      → IsTableState r.table
  unfolding vsnfsd_proc_lookup
  lookup-IsTableState none args resp r t h = cc
  lookup-IsTableState (some ns) args resp r t h =
      lookup_child-IsTableState ns args resp _ r t (λ n f. find_node-IsText _ ns n t f) h

  -- A first call of `getroot` makes the table, and a later one makes it anew.
  pub getroot-IsTableState :
      (table : Table) (args : GetrootArgs) (resp : VsnfsFh) (r : Reply)
      → IsTableState table
      → args.len ≤ 1024
      → has_nul args.path ≡ false
      → vsnfsd_proc_getroot vfs e k table args resp ≡ done r
      → IsTableState r.table
  unfolding vsnfsd_proc_getroot
  getroot-IsTableState table args resp r t l z h =
      elim (Run-cases (add_slash (args.len + 2) (take args.len args.path))) [
        | inl (raw, slashed) ↦
            let p : IsText room raw =
              add_slash-IsText room (args.len + 2) (take args.len args.path) raw (omega arith)
                (has_nul-take args.len args.path z) (omega (arith, length-take args.len args.path))
                slashed in
            ground (
              arith,
              until_nul_all raw p.0,
              getroot_inode-IsTableState e k table resp raw (vfs.path_lookup raw).0
                  (vfs.path_lookup raw).1 r,
            )
        | inr (f, fault) ↦ ground arith
      ]
