-- ===== src/Rpc/Remount.antt =====
-- Two clients of one server: the one mounts (`vsnfs_proc_getroot`, vsnfsProc.c) while the other has
-- handles from before, which it uses after that (`vsnfs_proc_read`).
use vsnfs.Base.{
  ℕ, ◌≤◌, ◌≡◌, ◌≢◌, refl, List, [], ◌∷◌, some, true, false, ◌==◌, ==_of_ne, pos, neg, Endian, done,
  length, IsWord, Bool-cases, inl, inr, arith, sym,
}
use vsnfs.Protocol.{VsnfsFh, IsFh, maxpathlen}
use vsnfs.Kernel.{Sunrpc, Strtoul}
use vsnfs.Errno.Constants
use vsnfs.Vfs.{Vfs, Inode, directory}
use vsnfs.ServerXdr.{ReaddirRes, has_nul}
use vsnfs.Server.{Node, Table, Reply, find_node, fh_memory, vsnfsd_fh_to_path}
use vsnfs.Server.Lookup.{fh_for}
use vsnfs.Server.Resolve.{plenty, slashed, getroot_run}
use vsnfs.Client.Lookup.{fh_for-IsFh}
use vsnfs.Rpc.Ops.{vsnfs_clientops}
use vsnfs.Rpc.Handles.{vsnfs_proc_getroot-serve}
use vsnfs.Rpc.Faults
use vsnfs.Rpc.Faults.Calls.{vsnfs_proc_read-fault}
use vsnfs.Rpc.Serve.{Surroundings, serve}

fh_to_path-other :
    (s : Strtoul) (e : Endian) (n : Node) (fh : VsnfsFh)
    → s.simple_strtoul (fh_memory e fh) ≢ n.ino
    → vsnfsd_fh_to_path s e (some (n ∷ [])) fh maxpathlen ≡ done (neg 1, [])
unfolding vsnfsd_fh_to_path find_node
fh_to_path-other s e n fh another =
    let missing = ==_of_ne n.ino (s.simple_strtoul (fh_memory e fh)) (λ same. another (sym same)) in
    elim (Bool-cases (s.simple_strtoul (fh_memory e fh) == 0)) [
      | inl none_at_all ↦ rw none_at_all refl
      | inr number ↦ rw (number, missing) refl
    ]

module _ {File : Type 0} (x : Sunrpc) (s : Strtoul) (vfs : Vfs File ReaddirRes) (e : Endian)
    (env : Surroundings) (empty : env.rqstp.head ≡ []) (eight : length env.resp.handle ≡ 8)
    (memory : env.alloc ≡ plenty) (there : env.file_path ≡ true) where
  -- A GETROOT of a path that is not empty and has no NUL and at most VSNFS_MAXPATHLEN bytes, under
  -- which with a slash at its end `path_lookup` finds a directory, where memory is there, and then a
  -- READ by another client's well-formed handle that does not have the number of that directory: the
  -- first call gives the root's handle, and the second fails with -ENOENT, whatever the table had for
  -- the handle before.
  pub getroot-read :
      (table : Table) (path : List ℕ) (ino : ℕ) (newfh fh : VsnfsFh)
      (rslack base offset count held : ℕ) (old : List ℕ)
      → has_nul path ≡ false
      → path ≢ []
      → length path ≤ maxpathlen
      → vfs.path_lookup (slashed directory path)
        ≡ (pos 0, some (record { i_ino = ino; kind = directory }))
      → IsFh fh
      → s.simple_strtoul (fh_memory e fh) ≢ ino
      → IsWord count
      → let ops = vsnfs_clientops x (serve x s vfs e env) in
        (table' : Table) × (page : List ℕ) × (ops.getroot table
            (record { path = path; len = length path })
            newfh
          ≡ done ((pos 0, fh_for env.resp (record { i_ino = ino; kind = directory })), table'))
        × (ops.read table' rslack base fh old offset count held
            ≡ done ((neg Constants.enoent, page, held), table'))
  getroot-read table path ino newfh fh rslack base offset count held old clean ne short found ok
        another word =
      let root : Inode = record { i_ino = ino; kind = directory } in
      let node : Node = record { ino = ino; path = slashed directory path } in
      let r : Reply = record {
        table = some (node ∷ []);
        status = 0;
        resp = fh_for env.resp root;
      } in
      let ran =
        getroot_run s e vfs table (record { path = path; len = length path }) env.resp ino clean ne
          refl found in
      let (page, refused) =
        vsnfs_proc_read-fault x s vfs e env empty (some (node ∷ [])) fh ok rslack base old offset
          count held (neg Constants.enoent) word
          (Faults.unknown [] there (fh_to_path-other s e node fh another)) in
      (
        some (node ∷ []),
        page,
        vsnfs_proc_getroot-serve x s vfs e env empty table r (omega arith)
            (fh_for-IsFh env.resp root eight (λ h. cc)) newfh path short clean (rw memory ran),
        refused,
      )
