-- ===== src/Server/Simulate.antt =====
-- The server's table as an abstract machine: what a call of LOOKUP or GETROOT (server/vsnfsproc.c)
-- can do to the paths that are known, and what can always still be done.
use vsnfs.Base.{
  ℕ, ◌+◌, ◌^◌, ◌<◌, ◌≤◌, ◌≡◌, ◌≢◌, refl, sym, ap, ◌∙◌, subst, List, [], ◌∷◌, ◌++◌, take, Option,
  none, some, true, false, ℤ, pos, Endian, done, >>=-eq-done, done-injective, arith, inl, inr,
  Bool-cases, length,
}
use vsnfs.Protocol.{VsnfsFh, VsnfsStat, vsnfserr, maxpathlen}
use vsnfs.Kernel.{Strtoul}
use vsnfs.Vfs.{Vfs, Inode, FileKind, regular, directory, other}
use vsnfs.ServerXdr.{GetrootArgs, LookupArgs, has_nul}
use vsnfs.Server.{
  Table, Kmalloc, Reply, minus, add_slash, until_nul, find_node, strncpy, vsnfsd_fh_to_path,
  ends_in_slash,
}
use vsnfs.Server.Lookup.{vsnfsd_proc_lookup}
use vsnfs.Server.Getroot.{fresh_table, getroot_inode, vsnfsd_proc_getroot}
use vsnfs.Server.Resolve.{plenty, slashed, has_nul-slashed, getroot_resolves}
use vsnfs.Server.Table.{has_nul-take}
use vsnfs.Server.Texts.{until_nul_all}
use vsnfs.Server.Reach.{Step, lookup, getroot, Reach, next}
use vsnfs.Server.Spec.{View, view, learn, unknown, no_space, found}
use vsnfs.Server.Refine.{add_slash-eq-done, learn_new, vsnfsd_proc_lookup-LookupSpec}

abbrev pub unknown_all : View
unknown_all ino = none

-- A call leaves the paths alone, adds one under which `path_lookup` found the inode, or (a GETROOT)
-- forgets all of them and maybe adds such a one, which ends in a slash.
pub data AbsStep {File State : Type 0} (vfs : Vfs File State) (v v' : View) : Type 0 where
  stay : v' ≡ v → AbsStep vfs v v'
  add :
      (inode : Inode) (path : List ℕ)
      → (vfs.path_lookup path).1 ≡ some inode
      → v' ≡ learn v inode.i_ino (slashed inode.kind path)
      → AbsStep vfs v v'
  forget : v' ≡ unknown_all → AbsStep vfs v v'
  mount :
      (inode : Inode) (path : List ℕ)
      → ends_in_slash path ≡ true
      → (vfs.path_lookup path).1 ≡ some inode
      → v' ≡ learn unknown_all inode.i_ino path
      → AbsStep vfs v v'

ends_in_slash-append : (path : List ℕ) → ends_in_slash (path ++ b'/' ∷ []) ≡ true
unfolding ends_in_slash
ends_in_slash-append [] = refl
ends_in_slash-append (c ∷ []) = refl
ends_in_slash-append (c ∷ (d ∷ ds)) = ends_in_slash-append (d ∷ ds)

slashed-slash : (path : List ℕ) → ends_in_slash (slashed directory path) ≡ true
slashed-slash path = elim (Bool-cases (ends_in_slash path)) [
  | inl has ↦ rw (has, has) refl
  | inr lacks ↦ rw (lacks, ends_in_slash-append path) refl
]

-- The path of a GETROOT, a C string, with the slash that the server adds.
root_text-slash :
    (args : GetrootArgs) (text : List ℕ)
    → has_nul args.path ≡ false
    → add_slash (args.len + 2) (take args.len args.path) ≡ done text
    → ends_in_slash (until_nul text) ≡ true
root_text-slash args text z added =
    let same = add_slash-eq-done (args.len + 2) (take args.len args.path) text added in
    let clean : has_nul (slashed directory (take args.len args.path)) ≡ false =
      has_nul-slashed (take args.len args.path) (has_nul-take args.len args.path z) in
    rw (same, until_nul_all (slashed directory (take args.len args.path)) clean)
      (slashed-slash (take args.len args.path))

module _ {File State : Type 0} (s : Strtoul) (vfs : Vfs File State) (e : Endian) where
  fresh_table-AbsStep :
      (k : Kmalloc) (v : View) (inode : Inode) (path : List ℕ) (status : ℕ) (table : Table)
      (status' : ℕ)
      → ends_in_slash path ≡ true
      → (vfs.path_lookup path).1 ≡ some inode
      → fresh_table e k inode.i_ino path status ≡ done (table, status')
      → AbsStep vfs v (view table)
  unfolding fresh_table find_node
  fresh_table-AbsStep k v inode path status table status' slash looked h =
      elim (Bool-cases k.node) [
        | inr missing ↦ absurd (ground (arith, missing))
        | inl there ↦ elim (Bool-cases k.node_path) [
          | inr short ↦
              let same : some [] ≡ table = ground (arith, there, short) in
              forget (sym (ap view same))
          | inl fits ↦
              let same : some (record { ino = inode.i_ino; path = path } ∷ []) ≡ table =
                ground (arith, there, fits) in
              mount inode path slash looked
                (sym (ap view same) ∙ learn_new [] inode.i_ino path refl)
        ]
      ]

  getroot_inode-AbsStep :
      (k : Kmalloc) (table : Table) (resp : VsnfsFh) (path : List ℕ) (ret : ℤ) (kind : FileKind)
      (ino : ℕ) (r : Reply)
      → ends_in_slash path ≡ true
      → (vfs.path_lookup path).1 ≡ some (record { i_ino = ino; kind = kind })
      → getroot_inode e k table resp path ret (some (record { i_ino = ino; kind = kind })) ≡ done r
      → AbsStep vfs (view table) (view r.table)
  unfolding getroot_inode
  getroot_inode-AbsStep k table resp path ret regular ino r slash looked h =
      stay (sym (ap (λ (q : Reply). view q.table) (done-injective h)))
  getroot_inode-AbsStep k table resp path ret directory ino r slash looked h =
      let ((table', status), made, h') = >>=-eq-done (fresh_table e k ino path _) _ h in
      subst (λ (q : Reply). AbsStep vfs (view table) (view q.table)) (done-injective h')
        (fresh_table-AbsStep k (view table) _ path _ table' status slash looked made)
  getroot_inode-AbsStep k table resp path ret other ino r slash looked h =
      let ((table', status), made, h') = >>=-eq-done (fresh_table e k ino path _) _ h in
      subst (λ (q : Reply). AbsStep vfs (view table) (view q.table)) (done-injective h')
        (fresh_table-AbsStep k (view table) _ path _ table' status slash looked made)

  getroot_found-AbsStep :
      (k : Kmalloc) (table : Table) (resp : VsnfsFh) (path : List ℕ) (ret : ℤ) (root : Option Inode)
      (r : Reply)
      → ends_in_slash path ≡ true
      → (vfs.path_lookup path).1 ≡ root
      → getroot_inode e k table resp path ret root ≡ done r
      → AbsStep vfs (view table) (view r.table)
  unfolding getroot_inode
  getroot_found-AbsStep k table resp path ret none r slash looked h = cc
  getroot_found-AbsStep k table resp path ret (some root) r slash looked h =
      getroot_inode-AbsStep k table resp path ret root.kind root.i_ino r slash looked h

  getroot-AbsStep :
      (k : Kmalloc) (table : Table) (args : GetrootArgs) (resp : VsnfsFh) (r : Reply)
      → has_nul args.path ≡ false
      → vsnfsd_proc_getroot vfs e k table args resp ≡ done r
      → AbsStep vfs (view table) (view r.table)
  unfolding vsnfsd_proc_getroot
  getroot-AbsStep k table args resp r z h =
      let raw = add_slash (args.len + 2) (take args.len args.path) in
      let failed : Reply = record {
        table = table;
        status = minus (vsnfserr e VsnfsStat.nospc);
        resp = resp;
      } in
      let refused : failed ≡ r → AbsStep vfs (view table) (view r.table) =
        λ (same : failed ≡ r). rw (← same) (stay refl) in
      elim (Bool-cases k.nd) [
        | inr short ↦ refused (ground (arith, short))
        | inl there ↦ elim (Bool-cases k.path) [
          | inr short ↦ refused (ground (arith, there, short))
          | inl fits ↦
              let (text, added, h') =
                >>=-eq-done raw
                  (λ (text : List ℕ).
                    let path = until_nul text in
                    getroot_inode e k table resp path (vfs.path_lookup path).0
                      (vfs.path_lookup path).1)
                  (rw (there, fits) at h) in
              let path = until_nul text in
              getroot_found-AbsStep k table resp path (vfs.path_lookup path).0
                (vfs.path_lookup path).1 r (root_text-slash args text z added) refl h'
        ]
      ]

  lookup-AbsStep :
      (k : Kmalloc) (table : Table) (args : LookupArgs) (resp : VsnfsFh) (r : Reply)
      → vsnfsd_proc_lookup s vfs e k table args resp ≡ done r
      → AbsStep vfs (view table) (view r.table)
  unfolding vsnfsd_proc_lookup
  lookup-AbsStep k none args resp r h = cc
  lookup-AbsStep k (some ns) args resp r h =
      elim (vsnfsd_proc_lookup-LookupSpec s vfs e k ns args resp r h) [
        | unknown _ same _ _ ↦ stay same
        | no_space same _ ↦ stay same
        | found parent inode _ looked learnt _ _ ↦ add inode _ looked learnt
      ]

  -- Each call that changes the table is a step of the abstract machine: it leaves every path as it
  -- was, keeps them all and adds at most one, or forgets all paths and has at most a new one; a path
  -- is added only for the number of the inode that `path_lookup` found under it, with a slash at its
  -- end for a directory and after a GETROOT.
  pub Step-AbsStep : {t u : Table} → Step s vfs e t u → AbsStep vfs (view t) (view u)
  Step-AbsStep {t} (lookup k args resp r h q) = rw q (lookup-AbsStep k t args resp r h)
  Step-AbsStep {t} (getroot k args resp r l z h q) = rw q (getroot-AbsStep k t args resp r z h)

  -- Whatever the server went through, a GETROOT with a path that is not empty, has no NUL and at most
  -- VSNFS_MAXPATHLEN bytes, under which with a slash at its end `path_lookup` finds a directory with a
  -- number of one to seven digits, returns 0 once there is memory, its table is again one that the
  -- server can have, and the handle in its reply resolves in this table to that directory's path (cut
  -- to VSNFS_MAXPATHLEN bytes).
  pub Reach-getroot :
      (table : Table) (args : GetrootArgs) (resp : VsnfsFh) (ino : ℕ)
      → Reach s vfs e table
      → args.len ≤ maxpathlen
      → has_nul args.path ≡ false
      → args.path ≢ []
      → args.len ≡ length args.path
      → vfs.path_lookup (slashed directory args.path)
        ≡ (pos 0, some (record { i_ino = ino; kind = directory }))
      → 0 < ino
      → ino < 10 ^ 7
      → (r : Reply) × (vsnfsd_proc_getroot vfs e plenty table args resp ≡ done r)
        × (r.status ≡ 0)
        × Reach s vfs e r.table
        × (vsnfsd_fh_to_path s e r.table r.resp maxpathlen
            ≡ done (pos 0, strncpy (slashed directory args.path) maxpathlen))
  Reach-getroot table args resp ino reached small plain ne len found_dir p seven =
      let (r, ran, status, _, resolves) =
        getroot_resolves s e vfs table args resp ino plain ne len found_dir p seven in
      (r, ran, status, next reached (getroot plenty args resp r small plain ran refl), resolves)
