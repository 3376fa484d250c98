-- ===== src/Svc/Lockd.antt =====
-- The sockets and the references to `lockd`, from their making to the end of the last thread, and
-- what this end frees: server/vsnfssvc.c.
use vsnfs.Base.{
  ℕ, suc, zero, ◌≡◌, refl, List, [], ◌∷◌, map, some, Bool, true, false, if◌then◌else◌, is_neg, ap,
  done, arith,
}
use vsnfs.Server.{Node}
use vsnfs.Svc.{
  SockCalls, vsnfsd_init_socks, Block, node_path, node_itself, free_nodes, down_each, LastThread,
  vsnfsd_last_thread,
}

-- A socket was made whose reference to `lockd` was refused.
abbrev pub lockd_refused : SockCalls → Bool
lockd_refused c =
    if is_neg c.udp
    then false
    else if is_neg c.udp_lockd
    then true
    else if is_neg c.tcp
    then false
    else is_neg c.tcp_lockd

-- The nodes, and the paths, that a run of `kfree` frees.
abbrev pub freed_nodes : List Block → List ℕ
freed_nodes [] = []
freed_nodes (node_path path ∷ blocks) = freed_nodes blocks
freed_nodes (node_itself ino ∷ blocks) = ino ∷ freed_nodes blocks

abbrev pub freed_paths : List Block → List (List ℕ)
freed_paths [] = []
freed_paths (node_path path ∷ blocks) = path ∷ freed_paths blocks
freed_paths (node_itself ino ∷ blocks) = freed_paths blocks

free_nodes_lem :
    (kept ns : List Node)
    → ((free_nodes kept ns).0 ≡ kept)
      × (freed_nodes (free_nodes kept ns).1 ≡ map (λ (n : Node). n.ino) ns)
      × (freed_paths (free_nodes kept ns).1 ≡ map (λ (n : Node). n.path) ns)
unfolding free_nodes
free_nodes_lem kept [] = (refl, refl, refl)
free_nodes_lem kept (node ∷ ns) =
    let (left, inos, paths) = free_nodes_lem kept ns in
    (
      left,
      ap (λ (is : List ℕ). node.ino ∷ is) inos,
      ap (λ (ps : List (List ℕ)). node.path ∷ ps) paths,
    )

-- References taken, one after the other.
abbrev pub up_each : {Lockd : Type 0} → (Lockd → Lockd) → ℕ → Lockd → Lockd
up_each lockd_up zero lockd = lockd
up_each lockd_up (suc n) lockd = lockd_up (up_each lockd_up n lockd)

module _ {Lockd : Type 0} (lockd_up lockd_down : Lockd → Lockd)
    (down-up : (lockd : Lockd) → lockd_down (lockd_up lockd) ≡ lockd) where
  down_each-init_socks :
      (c : SockCalls) (lockd : Lockd)
      → let made = vsnfsd_init_socks 0 c in
        down_each lockd_down made.socks (up_each lockd_up made.lockd lockd)
        ≡ (if lockd_refused c then lockd_down lockd else lockd)
  unfolding down_each vsnfsd_init_socks
  down_each-init_socks c lockd = ground (arith, down-up lockd, down-up (lockd_up lockd))

  -- Where `lockd_down` gives back what a `lockd_up` took: of a service that started without sockets,
  -- over a table that was made, the end of the last thread leaves an empty table, has freed the path
  -- of each node and each node of the table once, in the order of the table, and leaves `lockd` as
  -- it was before the sockets were made, unless `lockd` refused one of them: then a reference more is
  -- given back, which somebody else took.
  pub vsnfsd_last_thread-init_socks :
      (c : SockCalls) (ns : List Node) (lockd : Lockd)
      → let made = vsnfsd_init_socks 0 c in
        (end : LastThread Lockd) × (vsnfsd_last_thread lockd_down
            (some ns)
            made.socks
            (up_each lockd_up made.lockd lockd)
          ≡ done end)
        × (end.table ≡ some [])
        × (freed_nodes end.freed ≡ map (λ (n : Node). n.ino) ns)
        × (freed_paths end.freed ≡ map (λ (n : Node). n.path) ns)
        × (end.lockd ≡ (if lockd_refused c then lockd_down lockd else lockd))
  unfolding vsnfsd_last_thread
  vsnfsd_last_thread-init_socks c ns lockd =
      let (left, inos, paths) = free_nodes_lem [] ns in
      (_, refl, ap some left, inos, paths, down_each-init_socks c lockd)
