-- ===== src/Rpc/Walk.antt =====
-- A path's names looked up one after the other by a client (vsnfsProc.c), through the RPC layer, with
-- the server's table (server/vsnfsproc.c) passed on: against a walk on the paths that the table has.
use mathlib.Core.Option.{some_inj}
use vsnfs.Base.{
  ℕ, ◌+◌, ◌^◌, ◌<◌, ◌≤◌, ◌≡◌, ◌≢◌, refl, sym, ap, ◌∙◌, List, [], ◌∷◌, ◌++◌, some, false, eqb,
  if◌then◌else◌, ℤ, pos, Endian, little, big, cpu_to_be32, Run, done, ◌>>=◌, length, take_all,
  arith, store32,
}
use vsnfs.Protocol.{VsnfsFh, VsnfsStat, vsnfserr, maxnamlen}
use vsnfs.Kernel.{Sunrpc, Strtoul}
use vsnfs.Handle.Decimal.{strtoul-handle_of}
use vsnfs.Vfs.{Vfs, Inode, other}
use vsnfs.ServerXdr.{ReaddirRes, LookupArgs, has_nul, has_nul_or_slash}
use vsnfs.Server.{Node, Reply, fh_memory, minus}
use vsnfs.Server.Lookup.{room, fh_for}
use vsnfs.Server.Texts.{until_nul_all, has_nul-append, has_nul-has_nul_or_slash}
use vsnfs.Server.Resolve.{plenty, slashed, lookup_run}
use vsnfs.Server.Spec.{View, nodes_view, learn, child, LookupSpec, unknown, no_space, found}
use vsnfs.Server.Open.{known_node}
use vsnfs.Server.Refine.{vsnfsd_proc_lookup-LookupSpec}
use vsnfs.Rpc.Ops.{VsnfsRpcOps, vsnfs_clientops}
use vsnfs.Rpc.Handles.{vsnfs_proc_lookup-serve}
use vsnfs.Rpc.Serve.{Surroundings, serve}
use vsnfs.Client.Lookup.{fh_for-IsFh}

-- The lookups of a walk, which ends at the first that fails. `newfh` is what the memory for a handle
-- holds before.
abbrev pub walk :
    {State : Type 0}
    → VsnfsRpcOps State
    → (newfh : VsnfsFh) → State
    → (fh : VsnfsFh) → (names : List (List ℕ)) → Run ((ℤ × VsnfsFh) × State)
walk ops newfh state fh [] = done ((pos 0, fh), state)
walk ops newfh state fh (name ∷ names) = do
  ((ret, fh'), state') ←
      ops.lookup state (record { fh = fh; filename = name; len = length name }) newfh
  let rest = walk ops newfh state' fh' names
  if eqb ret (pos 0) then rest else done ((ret, fh'), state')

minus_nospc : (e : Endian) → minus (vsnfserr e VsnfsStat.nospc) ≢ 0
unfolding vsnfserr cpu_to_be32
minus_nospc little = omega arith
minus_nospc big = omega arith

module _ {File : Type 0} (x : Sunrpc) (s : Strtoul) (vfs : Vfs File ReaddirRes) (e : Endian) where
  -- The file system has an inode of a name below the path that is known for a directory.
  pub record IsBelow (v : View) (dir : Inode) (path name : List ℕ) (inode : Inode) : Type 0 where
    pub known : v dir.i_ino ≡ some path
    pub clean : has_nul path ≡ false
    pub some_path : path ≢ []
    pub short : length name ≤ maxnamlen
    pub named : has_nul_or_slash name ≡ false
    pub fits : length path + length name + 2 ≤ room
    pub looked_up : vfs.path_lookup (path ++ name) ≡ (pos 0, some inode)
    pub kind : inode.kind ≢ other

  -- A walk on what is known of paths: each inode that is found keeps the path that is known for its
  -- number or gets the one by which it was found, and the next name is looked up behind that.
  abbrev pub Chain : View → Inode → List (List ℕ) → View → Inode → Type 0
  Chain v dir [] v' last = (v ≡ v') × (dir ≡ last)
  Chain v dir (name ∷ names) v' last =
      (path : List ℕ) × (inode : Inode) × IsBelow v dir path name inode
      × (inode.i_ino < 10 ^ 7)
      × Chain (learn v inode.i_ino (slashed inode.kind (path ++ name))) inode names v' last

  module _ (env : Surroundings) (empty : env.rqstp.head ≡ []) (eight : length env.resp.handle ≡ 8)
      (memory : env.alloc ≡ plenty) (newfh : VsnfsFh) where
    -- A lookup with status 0 of an inode that is there learns a path for it.
    spec_learns :
        (v v' : View) (args : LookupArgs) (resp resp' : VsnfsFh) (path : List ℕ) (inode : Inode)
        → LookupSpec s vfs e v args resp v' 0 resp'
        → v (s.simple_strtoul (fh_memory e args.fh)) ≡ some path
        → (vfs.path_lookup (child s vfs e path args)).1 ≡ some inode
        → v' ≡ learn v inode.i_ino (slashed inode.kind (child s vfs e path args))
    spec_learns v v' args resp resp' path inode spec known looked = elim spec [
      | unknown new kept ok same ↦ absurd (cc (sym new ∙ known))
      | no_space kept short ↦ absurd (minus_nospc e (sym short))
      | found parent inode' parent_known found_here learnt ok same ↦
          let p : parent ≡ path = some_inj.0 (sym parent_known ∙ known) in
          let i : inode' ≡ inode = some_inj.0 (sym (rw p at found_here) ∙ looked) in
          rw (p, i) at learnt
    ]

    pub one_lookup :
        (ns : List Node) (dir inode : Inode) (path name : List ℕ)
        → dir.i_ino < 10 ^ 7
        → dir.kind ≢ other
        → IsBelow (nodes_view ns) dir path name inode
        → (ns' : List Node) × ((vsnfs_clientops x (serve x s vfs e env)).lookup
              (some ns)
              (record { fh = fh_for env.resp dir; filename = name; len = length name })
              newfh
            ≡ done ((pos 0, fh_for env.resp inode), some ns'))
          × (nodes_view ns' ≡ learn (nodes_view ns) inode.i_ino (slashed inode.kind (path ++ name)))
    one_lookup ns dir inode path name small kind below =
        let args : LookupArgs = record {
          fh = fh_for env.resp dir;
          filename = name;
          len = length name;
        } in
        let number : s.simple_strtoul (fh_memory e args.fh) ≡ dir.i_ino =
          (strtoul-handle_of s env.resp.handle (store32 e args.fh.type) dir.i_ino
              (omega (arith, small))).1
            small in
        let (n, here, is) = known_node ns dir.i_ino path below.known in
        let clear = has_nul-has_nul_or_slash name below.named in
        let (ns', n', ran, _, _) =
          lookup_run s e vfs ns args env.resp n inode (rw number here) (rw is below.clean) clear
            (rw is below.some_path) refl (omega (arith, ap length is, below.fits))
            (rw is below.looked_up) in
        let r : Reply = record { table = some ns'; status = 0; resp = fh_for env.resp inode } in
        let whole : child s vfs e path args ≡ path ++ name =
          rw (take_all (length name) name (omega arith))
            (until_nul_all (path ++ name) (has_nul-append path name below.clean clear)) in
        (
          ns',
          vsnfs_proc_lookup-serve x s vfs e env empty (some ns) r (omega arith)
              (fh_for-IsFh env.resp inode eight below.kind) newfh args.fh name
              (fh_for-IsFh env.resp dir eight kind) below.short below.named (rw memory ran),
          rw whole at (
              spec_learns (nodes_view ns) (nodes_view ns') args env.resp r.resp path inode
                (vsnfsd_proc_lookup-LookupSpec s vfs e plenty ns args env.resp r ran)
                (ap (nodes_view ns) number ∙ below.known) (rw (whole, below.looked_up) refl)),
        )

    -- A client that looks up names one after the other through the RPC layer, from the handle that the
    -- server makes for a file or directory whose number has at most seven digits, where the server's
    -- memory is there: if the file system has the names along the paths that the table has or gets
    -- (`Chain`), all with numbers of at most seven digits, then each call succeeds, the client ends with the handle of the last inode, and the
    -- table has exactly the paths that the walk on known paths ends with.
    pub walk-Chain :
        (names : List (List ℕ)) (ns : List Node) (dir last : Inode) (v' : View)
        → dir.i_ino < 10 ^ 7
        → dir.kind ≢ other
        → Chain (nodes_view ns) dir names v' last
        → (ns' : List Node) × (walk
              (vsnfs_clientops x (serve x s vfs e env))
              newfh
              (some ns)
              (fh_for env.resp dir)
              names
            ≡ done ((pos 0, fh_for env.resp last), some ns'))
          × (nodes_view ns' ≡ v')
    walk-Chain [] ns dir last v' small kind (same, there) =
        (ns, ap (λ (d : Inode). done ((pos 0, fh_for env.resp d), some ns)) there, same)
    walk-Chain (name ∷ names) ns dir last v' small kind (path, inode, below, small', further) =
        let (ns1, looked, learnt) = one_lookup ns dir inode path name small kind below in
        let (ns2, walked, is) =
          walk-Chain names ns1 inode last v' small' below.kind (rw learnt further) in
        (ns2, rw looked walked, is)
