-- ===== src/Server/Resolve.antt =====
-- What a successful `vsnfsd_proc_lookup` and `vsnfsd_proc_getroot` leave for `vsnfsd_fh_to_path`.
use vsnfs.Base.{
  ℕ, ◌+◌, ◌^◌, ◌≤◌, ◌<◌, ◌≡◌, ◌≢◌, inl, inr, refl, List, [], ◌∷◌, ◌++◌, Option, none, some, true,
  false, if◌then◌else◌, ==_refl, pos, Endian, store32, done, length, take_all, length-append,
  append-ne-nil, arith, Option-cases,
}
use vsnfs.Protocol.{VsnfsFh, dir, maxpathlen}
use vsnfs.Kernel.{Strtoul}
use vsnfs.Handle.{handle_of}
use vsnfs.Handle.Decimal.{strtoul-handle_of}
use vsnfs.Vfs.{Vfs, Inode, FileKind, regular, directory, other}
use vsnfs.ServerXdr.{has_nul, GetrootArgs, LookupArgs}
use vsnfs.Server.{
  Node, Table, Kmalloc, Reply, find_node, add_slash, ends_in_slash, strncpy, fh_memory,
  vsnfsd_fh_to_path,
}
use vsnfs.Server.Lookup.{room, fh_for, stored_path, remember, vsnfsd_proc_lookup}
use vsnfs.Server.Getroot.{vsnfsd_proc_getroot}
use vsnfs.Server.Texts.{until_nul_all, has_nul-append}

-- Memory is there for every call.
abbrev pub plenty : Kmalloc
plenty = record { path = true; nd = true; node = true; node_path = true }

-- A directory's path ends in a slash.
abbrev pub slashed : FileKind → List ℕ → List ℕ
slashed directory path = if ends_in_slash path then path else path ++ b'/' ∷ []
slashed regular path = path
slashed other path = path

-- The path that the table has for an inode, or else the new one.
abbrev pub path_for : Option Node → List ℕ → List ℕ
path_for none path = path
path_for (some n) path = n.path

pub add_slash-slashed :
    (lim : ℕ) (path : List ℕ)
    → path ≢ []
    → length path + 2 ≤ lim
    → add_slash lim path ≡ done (slashed directory path)
unfolding add_slash
add_slash-slashed lim [] n h = absurd (n refl)
add_slash-slashed lim (c ∷ cs) n h = ground arith

pub has_nul-slashed :
    (path : List ℕ) → has_nul path ≡ false → has_nul (slashed directory path) ≡ false
has_nul-slashed path h = ground (arith, has_nul-append path (b'/' ∷ []) h (unfold has_nul in refl))

stored_path-slashed :
    (kind : FileKind) (path : List ℕ)
    → path ≢ []
    → length path + 2 ≤ room
    → stored_path kind path ≡ done (slashed kind path)
stored_path-slashed regular path n h = refl
stored_path-slashed other path n h = refl
stored_path-slashed directory path n h = add_slash-slashed room path n h

-- With memory there, the inode has a node afterwards: its old one, or the new one.
remember-plenty :
    (e : Endian) (ns : List Node) (ino : ℕ) (path : List ℕ) (status : ℕ)
    → (ns' : List Node) × (n : Node) × (remember e plenty ns ino path status ≡ done (ns', status))
      × (find_node ino ns' ≡ some n)
      × (n.path ≡ path_for (find_node ino ns) path)
unfolding remember
remember-plenty e ns ino path status =
    let fresh : Node = record { ino = ino; path = path } in
    elim (Option-cases (find_node ino ns)) [
      | inl new ↦ (fresh ∷ ns, fresh, ground arith, ground arith, rw new)
      | inr (n, old) ↦ (ns, n, ground arith, old, rw old)
    ]

module _ (s : Strtoul) (e : Endian) where
  -- A handle resolves to the path that the table has for the number which is read from it.
  pub fh_to_path_number :
      (ns : List Node) (fh : VsnfsFh) (ino len : ℕ) (n : Node)
      → 0 < ino
      → s.simple_strtoul (fh_memory e fh) ≡ ino
      → find_node ino ns ≡ some n
      → vsnfsd_fh_to_path s e (some ns) fh len ≡ done (pos 0, strncpy n.path len)
  unfolding vsnfsd_fh_to_path
  fh_to_path_number ns fh ino len n p number f = ground (arith, number, f)

  fh_to_path_known :
      (ns : List Node) (buf : List ℕ) (ino type len : ℕ) (n : Node)
      → 0 < ino
      → ino < 10 ^ 7
      → find_node ino ns ≡ some n
      → vsnfsd_fh_to_path s e (some ns) (record { handle = handle_of buf ino; type = type }) len
        ≡ done (pos 0, strncpy n.path len)
  fh_to_path_known ns buf ino type len n p h f =
      fh_to_path_number ns (record { handle = handle_of buf ino; type = type }) ino len n p
        ((strtoul-handle_of s buf (store32 e type) ino (omega arith)).1 h) f

  module _ {File State : Type 0} (vfs : Vfs File State) where
    -- A lookup of a name in a directory that the table knows: what it returns, with the node that the
    -- inode has afterwards.
    pub lookup_run :
        (ns : List Node) (args : LookupArgs) (resp : VsnfsFh) (parent : Node) (inode : Inode)
        → find_node (s.simple_strtoul (fh_memory e args.fh)) ns ≡ some parent
        → has_nul parent.path ≡ false
        → has_nul args.filename ≡ false
        → parent.path ≢ []
        → args.len ≡ length args.filename
        → length parent.path + args.len + 2 ≤ room
        → vfs.path_lookup (parent.path ++ args.filename) ≡ (pos 0, some inode)
        → (ns' : List Node) × (n : Node) × (vsnfsd_proc_lookup s vfs e plenty (some ns) args resp
            ≡ done (record { table = some ns'; status = 0; resp = fh_for resp inode }))
          × (find_node inode.i_ino ns' ≡ some n)
          × (n.path
              ≡ path_for
                  (find_node inode.i_ino ns)
                  (slashed inode.kind (parent.path ++ args.filename)))
    unfolding vsnfsd_proc_lookup
    lookup_run ns args resp parent inode f zp zf ne l fits found =
        let path = parent.path ++ args.filename in
        let (ns', n, kept, known, is) =
          remember-plenty e ns inode.i_ino (slashed inode.kind path) 0 in
        (
          ns',
          n,
          ground (
            arith,
            take_all args.len args.filename (omega arith),
            until_nul_all path (has_nul-append parent.path args.filename zp zf),
            stored_path-slashed inode.kind path (append-ne-nil parent.path args.filename ne)
                (omega (arith, length-append parent.path args.filename)),
            kept,
          ),
          known,
          is,
        )

    -- A lookup of a name in a directory that the table knows. If both texts are C strings, the
    -- parent's path is not empty, the buffer has room for the path and a slash, `path_lookup`
    -- finds the inode, its number is positive and has at most seven digits, and memory is there,
    -- then the status is 0 and the handle of the reply resolves to the path that the table had
    -- for the inode, or else to the new path, which ends in a slash for a directory (cut to
    -- VSNFS_MAXPATHLEN bytes).
    pub lookup_resolves :
        (ns : List Node) (args : LookupArgs) (resp : VsnfsFh) (parent : Node) (inode : Inode)
        → find_node (s.simple_strtoul (fh_memory e args.fh)) ns ≡ some parent
        → has_nul parent.path ≡ false
        → has_nul args.filename ≡ false
        → parent.path ≢ []
        → args.len ≡ length args.filename
        → length parent.path + args.len + 2 ≤ room
        → vfs.path_lookup (parent.path ++ args.filename) ≡ (pos 0, some inode)
        → 0 < inode.i_ino
        → inode.i_ino < 10 ^ 7
        → (r : Reply) × (vsnfsd_proc_lookup s vfs e plenty (some ns) args resp ≡ done r)
          × (r.status ≡ 0)
          × (vsnfsd_fh_to_path s e r.table r.resp maxpathlen
              ≡ done (
                pos 0,
                strncpy
                    (path_for
                      (find_node inode.i_ino ns)
                      (slashed inode.kind (parent.path ++ args.filename)))
                    maxpathlen,
              ))
    lookup_resolves ns args resp parent inode f zp zf ne l fits found p small =
        let (ns', n, ran, known, is) =
          lookup_run ns args resp parent inode f zp zf ne l fits found in
        (
          record { table = some ns'; status = 0; resp = fh_for resp inode },
          ran,
          refl,
          rw (← is) (fh_to_path_known ns' resp.handle inode.i_ino _ maxpathlen n p small known),
        )

    pub getroot_run :
        (table : Table) (args : GetrootArgs) (resp : VsnfsFh) (ino : ℕ)
        → has_nul args.path ≡ false
        → args.path ≢ []
        → args.len ≡ length args.path
        → vfs.path_lookup (slashed directory args.path)
          ≡ (pos 0, some (record { i_ino = ino; kind = directory }))
        → vsnfsd_proc_getroot vfs e plenty table args resp
          ≡ done (record {
            table = some (record { ino = ino; path = slashed directory args.path } ∷ []);
            status = 0;
            resp = fh_for resp (record { i_ino = ino; kind = directory });
          })
    unfolding vsnfsd_proc_getroot
    getroot_run table args resp ino z ne l found = ground (
      arith,
      take_all args.len args.path (omega arith),
      add_slash-slashed (args.len + 2) args.path ne (omega arith),
      until_nul_all (slashed directory args.path) (has_nul-slashed args.path z),
    )

    -- If the path asked for is a C string that is not empty, `path_lookup` finds a directory
    -- under it with a slash at its end, its number is positive and has at most seven digits, and
    -- memory is there, then `getroot` returns 0, and the handle of its reply has the type of a
    -- directory and resolves to that path (cut to VSNFS_MAXPATHLEN bytes), whatever the table was
    -- before.
    pub getroot_resolves :
        (table : Table) (args : GetrootArgs) (resp : VsnfsFh) (ino : ℕ)
        → has_nul args.path ≡ false
        → args.path ≢ []
        → args.len ≡ length args.path
        → vfs.path_lookup (slashed directory args.path)
          ≡ (pos 0, some (record { i_ino = ino; kind = directory }))
        → 0 < ino
        → ino < 10 ^ 7
        → (r : Reply) × (vsnfsd_proc_getroot vfs e plenty table args resp ≡ done r)
          × (r.status ≡ 0)
          × (r.resp.type ≡ dir)
          × (vsnfsd_fh_to_path s e r.table r.resp maxpathlen
              ≡ done (pos 0, strncpy (slashed directory args.path) maxpathlen))
    getroot_resolves table args resp ino z ne l found p small =
        let root : Node = record { ino = ino; path = slashed directory args.path } in
        (
          record {
            table = some (root ∷ []);
            status = 0;
            resp = fh_for resp (record { i_ino = ino; kind = directory });
          },
          getroot_run table args resp ino z ne l found,
          refl,
          refl,
          fh_to_path_known (root ∷ []) resp.handle ino dir maxpathlen root p small
              (unfold find_node in rw (==_refl ino)),
        )
