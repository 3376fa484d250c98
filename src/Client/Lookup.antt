-- ===== src/Client/Lookup.antt =====
-- What the client's lookup makes of the server's answer: vsnfsDir.c and vsnfsClient.c behind
-- server/vsnfsproc.c.
use vsnfs.Base.{
  ℕ, ◌^◌, ◌<◌, ◌≤◌, ◌≡◌, ◌∙◌, ◌≢◌, refl, List, [], Option, none, some, true, false, ltb, ltb_of_le,
  eqb, if◌then◌else◌, ℤ, pos, neg, Endian, store32, done, length, arith, IsWord,
}
use vsnfs.Protocol.{VsnfsFh, VsnfsStat, IsFh, code, reg, dir, maxnamlen}
use vsnfs.Kernel.{Strtoul, Sunrpc}
use vsnfs.Handle.Decimal.{strtoul-handle_of, length-handle_of}
use vsnfs.Vfs.{Vfs, Inode, FileKind, regular, directory, other}
use vsnfs.ServerXdr.{has_nul_or_slash}
use vsnfs.Server.{Table, Reply, type_of}
use vsnfs.Server.Lookup.{fh_for, vsnfsd_proc_lookup}
use vsnfs.Errno.Constants
use vsnfs.ServerXdr.{ReaddirRes}
use vsnfs.Rpc.{vsnfs_proc_lookup}
use vsnfs.Rpc.Serve.{Surroundings, serve}
use vsnfs.Rpc.Handles.{vsnfs_proc_lookup-serve}
use vsnfs.Client.{
  HandleCall, ClientInode, file_operations, dir_operations, reg_mode, dir_mode, file_size, dentry,
  err_dentry, vsnfs_fhget, vsnfs_lookup,
}

-- What the client's inode is to be for a new inode of the server's.
abbrev pub mirror : VsnfsFh → Inode → ClientInode → ClientInode
mirror fh inode old = elim inode.kind [
  | directory ↦ record old {
    i_ino = inode.i_ino;
    i_op = dir_operations;
    i_fop = dir_operations;
    i_mode = dir_mode;
    i_size = file_size;
    i_nlink = 2;
    i_private = some fh;
    is_new = false;
  }
  | _ ↦ record old {
    i_ino = inode.i_ino;
    i_op = file_operations;
    i_fop = file_operations;
    i_mode = reg_mode;
    i_size = file_size;
    i_private = some fh;
    is_new = false;
  }
]

-- The number and the handle are there for each kind.
pub mirror-i_ino :
    (fh : VsnfsFh) (ino : ℕ) (kind : FileKind) (old : ClientInode)
    → (mirror fh (record { i_ino = ino; kind = kind }) old).i_ino ≡ ino
mirror-i_ino fh ino regular old = refl
mirror-i_ino fh ino directory old = refl
mirror-i_ino fh ino other old = refl

pub mirror-i_private :
    (fh : VsnfsFh) (ino : ℕ) (kind : FileKind) (old : ClientInode)
    → (mirror fh (record { i_ino = ino; kind = kind }) old).i_private ≡ some fh
mirror-i_private fh ino regular old = refl
mirror-i_private fh ino directory old = refl
mirror-i_private fh ino other old = refl

fhget_kind :
    (s : Strtoul) (e : Endian) (iget : ℕ → Option ClientInode) (resp : VsnfsFh) (ino : ℕ)
    (kind : FileKind) (old : ClientInode)
    → ino < 10 ^ 7
    → kind ≢ other
    → iget ino ≡ some old
    → old.is_new ≡ true
    → vsnfs_fhget s e iget (fh_for resp (record { i_ino = ino; kind = kind }))
      ≡ some (
          mirror
            (fh_for resp (record { i_ino = ino; kind = kind }))
            (record { i_ino = ino; kind = kind })
            old)
unfolding vsnfs_fhget
fhget_kind s e iget resp ino regular old small known found new =
    ground (
      arith,
      (strtoul-handle_of s resp.handle (store32 e reg) ino (omega arith)).1 small,
      found,
      new,
    )
fhget_kind s e iget resp ino directory old small known found new =
    ground (
      arith,
      (strtoul-handle_of s resp.handle (store32 e dir) ino (omega arith)).1 small,
      found,
      new,
    )
fhget_kind s e iget resp ino other old small known found new = absurd (known refl)

type_of-IsWord : (kind : FileKind) (old : ℕ) → kind ≢ other → IsWord (type_of kind old)
type_of-IsWord regular old known = omega arith
type_of-IsWord directory old known = omega arith
type_of-IsWord other old known = absurd (known refl)

-- The server's handle is well-formed.
pub fh_for-IsFh :
    (resp : VsnfsFh) (inode : Inode)
    → length resp.handle ≡ 8
    → inode.kind ≢ other
    → IsFh (fh_for resp inode)
fh_for-IsFh resp inode eight known =
    (length-handle_of resp.handle inode.i_ino eight, type_of-IsWord inode.kind resp.type known)

-- From the handle that the server makes for a file or directory whose number has at most seven
-- digits, the client makes a new inode of the same number and kind, with the handle in it.
pub vsnfs_fhget-fh_for :
    (s : Strtoul) (e : Endian) (iget : ℕ → Option ClientInode) (resp : VsnfsFh) (inode : Inode)
    (old : ClientInode)
    → inode.i_ino < 10 ^ 7
    → inode.kind ≢ other
    → iget inode.i_ino ≡ some old
    → old.is_new ≡ true
    → vsnfs_fhget s e iget (fh_for resp inode) ≡ some (mirror (fh_for resp inode) inode old)
vsnfs_fhget-fh_for s e iget resp inode old small known found new =
    fhget_kind s e iget resp inode.i_ino inode.kind old small known found new

module _ {Dentry State : Type 0} (s : Strtoul) (e : Endian) (iget : ℕ → Option ClientInode)
    (d_materialise_unique : Option ClientInode → Dentry) where
  -- Whatever the call of the server returns, for a directory with its handle and memory for the
  -- arguments: a name above VSNFS_MAXNAMLEN is -ENAMETOOLONG, and the server is left alone; a call
  -- that returned 0 gives the dentry of the handle's inode, and -EINVAL if there is none; every other
  -- answer is -VSNFSERR_REMOTE, so no lookup makes a dentry without an inode.
  pub vsnfs_lookup_lem :
      (lookup : HandleCall State) (state state' : State) (parent : VsnfsFh) (name : List ℕ)
      (newfh fh : VsnfsFh) (ret : ℤ)
      → lookup state (record { fh = parent; filename = name; len = length name }) newfh
        ≡ done ((ret, fh), state')
      → vsnfs_lookup s e iget d_materialise_unique lookup state true (some parent) name newfh
        ≡ done (
            if ltb maxnamlen (length name)
            then (err_dentry (neg Constants.enametoolong), state)
            else (
              if eqb ret (pos 0)
                  then elim (vsnfs_fhget s e iget fh) [
                    | none ↦ err_dentry (neg Constants.einval)
                    | some inode ↦ dentry (d_materialise_unique (some inode))
                  ]
                  else err_dentry (neg (code VsnfsStat.remote)),
              state',
            ))
  unfolding vsnfs_lookup
  vsnfs_lookup_lem lookup state state' parent name newfh fh ret called = ground (arith, called)

module _ {File Dentry : Type 0} (x : Sunrpc) (s : Strtoul) (vfs : Vfs File ReaddirRes) (e : Endian)
    (env : Surroundings) (empty : env.rqstp.head ≡ []) (eight : length env.resp.handle ≡ 8)
    (table : Table) (iget : ℕ → Option ClientInode)
    (d_materialise_unique : Option ClientInode → Dentry) where
  -- A client's lookup of a name of at most VSNFS_MAXNAMLEN bytes without NUL and slash, through the
  -- RPC layer: if the server's procedure returns status 0 with the handle that it makes for a file
  -- or directory whose number has at most seven digits, and the client's cache gives a new inode for
  -- that number, then the client's dentry gets an inode of the same number and kind, with the handle
  -- in it, and the server keeps the procedure's table.
  pub vsnfs_lookup-rpc :
      (parent newfh : VsnfsFh) (name : List ℕ) (inode : Inode) (old : ClientInode) (r : Reply)
      → IsFh parent
      → length name ≤ maxnamlen
      → has_nul_or_slash name ≡ false
      → vsnfsd_proc_lookup s vfs e env.alloc table
          (record { fh = parent; filename = name; len = length name })
          env.resp
        ≡ done r
      → r.status ≡ 0
      → r.resp ≡ fh_for env.resp inode
      → inode.i_ino < 10 ^ 7
      → inode.kind ≢ other
      → iget inode.i_ino ≡ some old
      → old.is_new ≡ true
      → vsnfs_lookup s e iget d_materialise_unique
          (vsnfs_proc_lookup x (serve x s vfs e env))
          table
          true
          (some parent)
          name
          newfh
        ≡ done (
          dentry (d_materialise_unique (some (mirror (fh_for env.resp inode) inode old))),
          r.table,
        )
  vsnfs_lookup-rpc parent newfh name inode old r hp short plain ran zero same small known found
        new =
      let called : vsnfs_proc_lookup x (serve x s vfs e env) table
            (record { fh = parent; filename = name; len = length name }) newfh
          ≡ done ((pos 0, r.resp), r.table) =
        vsnfs_proc_lookup-serve x s vfs e env empty table r (rw zero (omega arith))
          (rw same (fh_for-IsFh env.resp inode eight known)) newfh parent name hp short plain ran
        ∙ rw zero refl in
      rw
        (
          vsnfs_lookup_lem s e iget d_materialise_unique (vsnfs_proc_lookup x (serve x s vfs e env))
              table r.table parent name newfh r.resp (pos 0) called,
          ltb_of_le maxnamlen (length name) short,
          same,
          vsnfs_fhget-fh_for s e iget env.resp inode old small known found new,
        )
        refl
