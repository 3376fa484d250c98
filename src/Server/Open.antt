-- ===== src/Server/Open.antt =====
-- `vsnfsd_open` (server/vfs.c) of a handle that the lookup table knows.
use mathlib.Core.Option.{some_inj}
use vsnfs.Base.{
  ℕ, zero, suc, ◌+◌, ◌^◌, ◌<◌, ◌≤◌, ◌≡◌, refl, sym, ap, ◌∙◌, List, [], ◌∷◌, ◌++◌, some, true, false,
  Endian, done, store32, length, take, replicate, arith, Option-cases, inl, inr,
}
use vsnfs.Protocol.{VsnfsFh, VsnfsStat, vsnfserr, maxpathlen}
use vsnfs.Kernel.{Strtoul}
use vsnfs.Handle.{handle_of}
use vsnfs.Handle.Decimal.{strtoul-handle_of}
use vsnfs.Vfs.{Vfs}
use vsnfs.ServerXdr.{ReaddirRes, has_nul}
use vsnfs.Server.{Node, find_node, fh_memory, strncpy, cstring}
use vsnfs.Server.Files.{vsnfsd_open}
use vsnfs.Server.Resolve.{fh_to_path_number}
use vsnfs.Server.Spec.{path_of, nodes_view}

-- A short text is copied with a NUL behind it.
take-zeros :
    (path : List ℕ) (len m : ℕ)
    → length path < len
    → len ≤ length path + m
    → (rest : List ℕ) × (take len (path ++ replicate m 0) ≡ path ++ (0 ∷ rest))
take-zeros [] (suc len) (suc m) h k = (take len (replicate m 0), refl)
take-zeros (c ∷ cs) (suc len) m h k =
    let (rest, is) = take-zeros cs len m (omega (arith, h)) (omega (arith, k)) in
    (rest, ap (λ (t : List ℕ). c ∷ t) is)
take-zeros [] (suc len) zero h k = absurd (omega (arith, k))
take-zeros path zero m h k = absurd (omega (arith, h))

cstring-append :
    (path rest : List ℕ) → has_nul path ≡ false → cstring (path ++ (0 ∷ rest)) ≡ done path
unfolding cstring has_nul
cstring-append [] rest clean = refl
cstring-append (c ∷ cs) rest clean = ground (arith, cstring-append cs rest)

cstring-strncpy :
    (path : List ℕ) (len : ℕ)
    → has_nul path ≡ false
    → length path < len
    → cstring (strncpy path len) ≡ done path
unfolding strncpy
cstring-strncpy path len clean short =
    let (rest, is) = take-zeros path len len short (omega arith) in
    ap cstring is ∙ cstring-append path rest clean

-- What the view knows is a node's path.
pub known_node :
    (ns : List Node) (ino : ℕ) (path : List ℕ)
    → nodes_view ns ino ≡ some path
    → (n : Node) × (find_node ino ns ≡ some n) × (n.path ≡ path)
known_node ns ino path known = elim (Option-cases (find_node ino ns)) [
  | inl new ↦ absurd (cc (sym (ap path_of new) ∙ known))
  | inr (n, here) ↦ (n, here, some_inj.0 (sym (ap path_of here) ∙ known))
]

-- A handle is opened by the path that is known for the number which is read from it.
pub vsnfsd_open-number :
    {File : Type 0} (s : Strtoul) (vfs : Vfs File ReaddirRes) (e : Endian) (ns : List Node)
    (fh : VsnfsFh) (ino : ℕ) (path : List ℕ) (file : File)
    → 0 < ino
    → s.simple_strtoul (fh_memory e fh) ≡ ino
    → nodes_view ns ino ≡ some path
    → has_nul path ≡ false
    → length path < maxpathlen
    → vfs.filp_open path ≡ some file
    → vsnfsd_open s vfs e true (some ns) fh ≡ done (vsnfserr e VsnfsStat.ok, some file)
unfolding vsnfsd_open
vsnfsd_open-number s vfs e ns fh ino path file positive number known clean short opens =
    let (n, here, is) = known_node ns ino path known in
    rw
      (
        fh_to_path_number s e ns fh ino maxpathlen n positive number here,
        is,
        cstring-strncpy path maxpathlen clean short,
        opens,
      )
      refl

-- A handle of an inode whose path is known is opened by this path.
pub vsnfsd_open-known :
    {File : Type 0} (s : Strtoul) (vfs : Vfs File ReaddirRes) (e : Endian) (ns : List Node)
    (buf : List ℕ) (ino type : ℕ) (path : List ℕ) (file : File)
    → 0 < ino
    → ino < 10 ^ 7
    → nodes_view ns ino ≡ some path
    → has_nul path ≡ false
    → length path < maxpathlen
    → vfs.filp_open path ≡ some file
    → vsnfsd_open s vfs e true (some ns) (record { handle = handle_of buf ino; type = type })
      ≡ done (vsnfserr e VsnfsStat.ok, some file)
vsnfsd_open-known s vfs e ns buf ino type path file positive small known clean short opens =
    vsnfsd_open-number s vfs e ns (record { handle = handle_of buf ino; type = type }) ino path file
      positive ((strtoul-handle_of s buf (store32 e type) ino (omega arith)).1 small) known clean
      short opens
