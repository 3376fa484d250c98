-- ===== src/Server/Reach.antt =====
-- The tables that a server can come to, as a step relation over the two procedures that change the
-- table: server/vsnfsproc.c.
use vsnfs.Base.{
  ℕ, ◌≤◌, ◌≡◌, subst, List, ◌++◌, take, Option, none, some, false, ℤ, Endian, done, >>=-eq-done,
  done-injective, arith,
}
use vsnfs.Protocol.{VsnfsFh, maxpathlen}
use vsnfs.Kernel.{Strtoul}
use vsnfs.Vfs.{Vfs, Inode}
use vsnfs.ServerXdr.{has_nul, GetrootArgs, LookupArgs}
use vsnfs.Server.{Node, Table, Kmalloc, Reply, find_node, until_nul}
use vsnfs.Server.Lookup.{stored_path, remember, lookup_inode, lookup_child, vsnfsd_proc_lookup}
use vsnfs.Server.Getroot.{vsnfsd_proc_getroot}
use vsnfs.Server.Table.{IsTableState, remember-keeps, lookup-IsTableState, getroot-IsTableState}

-- What the table says of an inode.
abbrev pub table_node : Table → ℕ → Option Node
table_node none ino = none
table_node (some ns) ino = find_node ino ns

module _ {File State : Type 0} (s : Strtoul) (vfs : Vfs File State) (e : Endian) where
  -- A call that returned. The path of a `getroot` is one that its decoder lets through.
  pub data Step : Table → Table → Type 0 where
    lookup :
        (k : Kmalloc) {table table' : Table} (args : LookupArgs) (resp : VsnfsFh) (r : Reply)
        → vsnfsd_proc_lookup s vfs e k table args resp ≡ done r
        → table' ≡ r.table
        → Step table table'
    getroot :
        (k : Kmalloc) {table table' : Table} (args : GetrootArgs) (resp : VsnfsFh) (r : Reply)
        → args.len ≤ maxpathlen
        → has_nul args.path ≡ false
        → vsnfsd_proc_getroot vfs e k table args resp ≡ done r
        → table' ≡ r.table
        → Step table table'

  -- From a table that was not made yet.
  pub data Reach : Table → Type 0 where
    start : Reach none
    next : {table table' : Table} → Reach table → Step table table' → Reach table'

  Step-IsTableState : {t u : Table} → Step t u → IsTableState t → IsTableState u
  Step-IsTableState {t} (lookup k args resp r h q) w =
      rw q (lookup-IsTableState s vfs e k t args resp r w h)
  Step-IsTableState {t} (getroot k args resp r l z h q) w =
      rw q (getroot-IsTableState s vfs e k t args resp r w l z h)

  -- In every table that a sequence of returned lookups and of returned `getroot` calls with a
  -- decoded path leads to, from the table that was not made yet, each inode number has one node,
  -- and each path is a C string of 1 to VSNFS_MAXPATHLEN + 1 bytes, whatever the clients send and
  -- whichever allocations fail.
  pub Reach-IsTableState : {t : Table} → Reach t → IsTableState t
  Reach-IsTableState start = tt
  Reach-IsTableState (next r st) = Step-IsTableState st (Reach-IsTableState r)

lookup_inode-keeps :
    (e : Endian) (k : Kmalloc) (ns : List Node) (resp : VsnfsFh) (path : List ℕ) (rc : ℤ)
    (inode : Option Inode) (r : Reply) (i : ℕ) (n : Node)
    → lookup_inode e k ns resp path rc inode ≡ done r
    → find_node i ns ≡ some n
    → table_node r.table i ≡ some n
unfolding lookup_inode
lookup_inode-keeps e k ns resp path rc none r i n h f = cc
lookup_inode-keeps e k ns resp path rc (some inode) r i n h f =
    let (path', _, h') = >>=-eq-done (stored_path inode.kind path) _ h in
    let ((ns', status), kept, h'') = >>=-eq-done (remember e k ns inode.i_ino path' _) _ h' in
    subst (λ q. table_node q.table i ≡ some n) (done-injective h'')
      (remember-keeps e k ns inode.i_ino path' _ ns' status i n kept f)

module _ {File State : Type 0} (s : Strtoul) (vfs : Vfs File State) (e : Endian) (k : Kmalloc) where
  lookup_child-keeps :
      (ns : List Node) (args : LookupArgs) (resp : VsnfsFh) (parent : Option Node) (r : Reply)
      (i : ℕ) (n : Node)
      → lookup_child s vfs e k ns args resp parent ≡ done r
      → find_node i ns ≡ some n
      → table_node r.table i ≡ some n
  unfolding lookup_child
  lookup_child-keeps ns args resp none r i n h f = ground arith
  lookup_child-keeps ns args resp (some p) r i n h f =
      let path = until_nul (p.path ++ take args.len args.filename) in
      ground (
        arith,
        lookup_inode-keeps e k ns resp path (vfs.path_lookup path).0 (vfs.path_lookup path).1 r i n,
      )

  -- A lookup that returns takes nothing from the table and changes no node: what the table said
  -- of an inode number it goes on saying.
  pub lookup_keeps :
      (table : Table) (args : LookupArgs) (resp : VsnfsFh) (r : Reply) (i : ℕ) (n : Node)
      → vsnfsd_proc_lookup s vfs e k table args resp ≡ done r
      → table_node table i ≡ some n
      → table_node r.table i ≡ some n
  unfolding vsnfsd_proc_lookup
  lookup_keeps none args resp r i n h f = cc
  lookup_keeps (some ns) args resp r i n h f = lookup_child-keeps ns args resp _ r i n h f
