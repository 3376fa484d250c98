-- ===== src/Server/Honest.antt =====
-- What the paths of the server's table say of the file system: server/vsnfsproc.c.
use vsnfs.Base.{
  ℕ, ◌≡◌, ◌⊎◌, inl, inr, refl, ap, ◌∙◌, List, some, Bool-cases, Option-cases, ◌==◌, Endian, arith,
}
use mathlib.Core.Option.{some_inj}
use vsnfs.Kernel.{Strtoul}
use vsnfs.Vfs.{Vfs, Inode}
use vsnfs.Server.{Table}
use vsnfs.Server.Resolve.{slashed}
use vsnfs.Server.Reach.{Reach, start, next}
use vsnfs.Server.Spec.{View, view, learn}
use vsnfs.Server.Simulate.{AbsStep, stay, add, forget, mount, unknown_all, Step-AbsStep}

module _ {File State : Type 0} (vfs : Vfs File State) where
  -- A path under which `path_lookup` found the inode of a number, maybe with a slash behind it.
  abbrev pub IsPathOf : ℕ → List ℕ → Type 0
  IsPathOf ino known =
      (inode : Inode) × (path : List ℕ) × ((vfs.path_lookup path).1 ≡ some inode)
      × (inode.i_ino ≡ ino)
      × ((known ≡ path) ⊎ (known ≡ slashed inode.kind path))

  abbrev pub IsHonest : View → Type 0
  IsHonest v = (ino : ℕ) (path : List ℕ) → v ino ≡ some path → IsPathOf ino path

  learn-IsHonest :
      (v : View) (inode : Inode) (path known : List ℕ)
      → IsHonest v
      → (vfs.path_lookup path).1 ≡ some inode
      → (known ≡ path) ⊎ (known ≡ slashed inode.kind path)
      → IsHonest (learn v inode.i_ino known)
  learn-IsHonest v inode path known honest looked ends ino shown says =
      elim (Bool-cases (inode.i_ino == ino)) [
        | inr another ↦ honest ino shown (rw another at says)
        | inl same ↦
            let number : inode.i_ino ≡ ino = ground (arith, same) in
            elim (Option-cases (v inode.i_ino)) [
              | inl new ↦
                  let is : known ≡ shown = some_inj.0 (rw (same, new) at says) in
                  (inode, path, looked, number, rw (← is) ends)
              | inr (old, kept) ↦
                  let is : old ≡ shown = some_inj.0 (rw (same, kept) at says) in
                  honest ino shown (rw number at (kept ∙ ap some is))
            ]
      ]

  AbsStep-IsHonest : (v v' : View) → AbsStep vfs v v' → IsHonest v → IsHonest v'
  AbsStep-IsHonest v v' (stay same) honest = rw same honest
  AbsStep-IsHonest v v' (add inode path looked learnt) honest =
      rw learnt (learn-IsHonest v inode path (slashed inode.kind path) honest looked (inr refl))
  AbsStep-IsHonest v v' (forget same) honest = rw same (λ ino path says. cc)
  AbsStep-IsHonest v v' (mount inode path _ looked learnt) honest =
      rw learnt
        (learn-IsHonest unknown_all inode path path (λ ino shown says. cc) looked (inl refl))

module _ {File State : Type 0} (s : Strtoul) (vfs : Vfs File State) (e : Endian) where
  pub Reach-IsHonest : {t : Table} → Reach s vfs e t → IsHonest vfs (view t)
  Reach-IsHonest start = λ ino path says. cc
  Reach-IsHonest (next {table} {table'} before step) =
      AbsStep-IsHonest vfs (view table) (view table') (Step-AbsStep s vfs e step)
        (Reach-IsHonest before)
