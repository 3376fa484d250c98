-- ===== src/Server/Again.antt =====
-- A request that arrives a second time at `vsnfsd_proc_lookup` or `vsnfsd_proc_getroot`
-- (server/vsnfsproc.c), for which no answers are cached.
use vsnfs.Base.{
  ℕ, ◌+◌, ◌≡◌, refl, sym, subst, ap, List, ◌++◌, Option, some, none, ℤ, Endian, done, >>=-eq-done,
  done-injective, take, Bool-cases, inl, inr, arith,
}
use vsnfs.Protocol.{VsnfsFh, VsnfsStat, vsnfserr}
use vsnfs.Kernel.{Strtoul}
use vsnfs.Vfs.{Vfs, Inode, FileKind, regular, directory, other}
use vsnfs.ServerXdr.{LookupArgs, GetrootArgs}
use vsnfs.Server.{
  Node, Table, Kmalloc, Reply, find_node, fh_memory, minus, until_nul, word_of_int, add_slash,
}
use vsnfs.Server.Lookup.{stored_path, remember, lookup_inode, lookup_child, vsnfsd_proc_lookup}
use vsnfs.Server.Getroot.{getroot_inode, vsnfsd_proc_getroot}
use vsnfs.Server.Table.{remember-keeps}

remember-again :
    (e : Endian) (k : Kmalloc) (ns : List Node) (ino : ℕ) (path : List ℕ) (status : ℕ)
    (ns' : List Node) (status' : ℕ)
    → remember e k ns ino path status ≡ done (ns', status')
    → remember e k ns' ino path status ≡ done (ns', status')
unfolding remember find_node
remember-again e k ns ino path status ns' status' h = ground arith

module _ {File State : Type 0} (s : Strtoul) (vfs : Vfs File State) (e : Endian) (k : Kmalloc) where
  lookup_inode-again :
      (ns : List Node) (resp : VsnfsFh) (path : List ℕ) (rc : ℤ) (inode : Option Inode) (r : Reply)
      (j : ℕ) (n : Node)
      → lookup_inode e k ns resp path rc inode ≡ done r
      → find_node j ns ≡ some n
      → (ns' : List Node) × (r.table ≡ some ns')
        × (lookup_inode e k ns' resp path rc inode ≡ done r)
        × (find_node j ns' ≡ some n)
  unfolding lookup_inode
  lookup_inode-again ns resp path rc none r j n h known = absurd (cc h)
  lookup_inode-again ns resp path rc (some inode) r j n h known =
      let (path', stored, h') = >>=-eq-done (stored_path inode.kind path) _ h in
      let ((ns', status), kept, h'') =
        >>=-eq-done (remember e k ns inode.i_ino path' (word_of_int rc)) _ h' in
      let is = done-injective h'' in
      (
        ns',
        sym (ap (λ (q : Reply). q.table) is),
        rw (stored, remember-again e k ns inode.i_ino path' (word_of_int rc) ns' status kept) h'',
        remember-keeps e k ns inode.i_ino path' (word_of_int rc) ns' status j n kept known,
      )

  lookup_child-again :
      (ns : List Node) (args : LookupArgs) (resp : VsnfsFh) (parent : Option Node) (r : Reply)
      (j : ℕ)
      → lookup_child s vfs e k ns args resp parent ≡ done r
      → find_node j ns ≡ parent
      → (ns' : List Node) × (r.table ≡ some ns')
        × (lookup_child s vfs e k ns' args resp parent ≡ done r)
        × (find_node j ns' ≡ parent)
  unfolding lookup_child
  lookup_child-again ns args resp none r j h known =
      (ns, sym (ap (λ (q : Reply). q.table) (done-injective h)), h, known)
  lookup_child-again ns args resp (some parent) r j h known =
      let path = until_nul (parent.path ++ take args.len args.filename) in
      let failed : Reply = record {
        table = some ns;
        status = minus (vsnfserr e VsnfsStat.nospc);
        resp = resp;
      } in
      elim (Bool-cases k.path) [
        | inr short ↦
            let is : failed ≡ r = ground (arith, short) in
            (ns, sym (ap (λ (q : Reply). q.table) is), h, known)
        | inl there ↦ elim (Bool-cases k.nd) [
          | inr short ↦
              let is : failed ≡ r = ground (arith, there, short) in
              (ns, sym (ap (λ (q : Reply). q.table) is), h, known)
          | inl fits ↦
              let looked : lookup_inode e k ns resp path (vfs.path_lookup path).0
                    (vfs.path_lookup path).1
                  ≡ done r =
                ground (arith, there, fits) in
              let (ns', left, again, kept) =
                lookup_inode-again ns resp path (vfs.path_lookup path).0 (vfs.path_lookup path).1 r
                  j parent looked known in
              (ns', left, ground (arith, there, fits, again), kept)
        ]
      ]

  pub vsnfsd_proc_lookup-again :
      (t : Table) (args : LookupArgs) (resp : VsnfsFh) (r : Reply)
      → vsnfsd_proc_lookup s vfs e k t args resp ≡ done r
      → vsnfsd_proc_lookup s vfs e k r.table args resp ≡ done r
  unfolding vsnfsd_proc_lookup
  vsnfsd_proc_lookup-again none args resp r h = absurd (cc h)
  vsnfsd_proc_lookup-again (some ns) args resp r h =
      let (ns', left, again, kept) =
        lookup_child-again ns args resp (find_node (s.simple_strtoul (fh_memory e args.fh)) ns) r
          (s.simple_strtoul (fh_memory e args.fh)) h refl in
      subst (λ (u : Table). vsnfsd_proc_lookup s vfs e k u args resp ≡ done r) (sym left)
        (rw kept again)

  getroot_kind-again :
      (t : Table) (resp : VsnfsFh) (path : List ℕ) (ret : ℤ) (ino : ℕ) (kind : FileKind) (r : Reply)
      → getroot_inode e k t resp path ret (some (record { i_ino = ino; kind = kind })) ≡ done r
      → getroot_inode e k r.table resp path ret (some (record { i_ino = ino; kind = kind }))
        ≡ done r
  unfolding getroot_inode
  getroot_kind-again t resp path ret ino regular r h =
      subst
        (λ (q : Reply).
          getroot_inode e k q.table resp path ret (some (record { i_ino = ino; kind = regular }))
          ≡ done q)
        (done-injective h) refl
  getroot_kind-again t resp path ret ino directory r h = h
  getroot_kind-again t resp path ret ino other r h = h

  getroot_inode-again :
      (t : Table) (resp : VsnfsFh) (path : List ℕ) (ret : ℤ) (root : Option Inode) (r : Reply)
      → getroot_inode e k t resp path ret root ≡ done r
      → getroot_inode e k r.table resp path ret root ≡ done r
  unfolding getroot_inode
  getroot_inode-again t resp path ret none r h = absurd (cc h)
  getroot_inode-again t resp path ret (some root) r h =
      getroot_kind-again t resp path ret root.i_ino root.kind r h

  pub vsnfsd_proc_getroot-again :
      (t : Table) (args : GetrootArgs) (resp : VsnfsFh) (r : Reply)
      → vsnfsd_proc_getroot vfs e k t args resp ≡ done r
      → vsnfsd_proc_getroot vfs e k r.table args resp ≡ done r
  unfolding vsnfsd_proc_getroot
  vsnfsd_proc_getroot-again t args resp r h =
      let failed : Table → Reply =
        λ left. record { table = left; status = minus (vsnfserr e VsnfsStat.nospc); resp = resp } in
      elim (Bool-cases k.nd) [
        | inr short ↦
            let is : failed t ≡ r = done-injective (rw short at h) in
            subst (λ (q : Reply). vsnfsd_proc_getroot vfs e k q.table args resp ≡ done q) is
              (rw short refl)
        | inl there ↦ elim (Bool-cases k.path) [
          | inr short ↦
              let is : failed t ≡ r = done-injective (rw (there, short) at h) in
              subst (λ (q : Reply). vsnfsd_proc_getroot vfs e k q.table args resp ≡ done q) is
                (rw (there, short) refl)
          | inl fits ↦
              let (raw, stored, h') =
                >>=-eq-done (add_slash (args.len + 2) (take args.len args.path)) _
                  (rw (there, fits) at h) in
              let path = until_nul raw in
              rw (there, fits, stored)
                (getroot_inode-again t resp path (vfs.path_lookup path).0 (vfs.path_lookup path).1 r
                  h')
        ]
      ]
