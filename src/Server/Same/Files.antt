-- ===== src/Server/Same/Files.antt =====
-- Opening, reading and listing (server/vfs.c) by two tables that name the same paths.
use vsnfs.Base.{
  ℕ, ◌≡◌, refl, ap, List, [], Option, none, some, ◌==◌, if◌then◌else◌, Bool, true, false, ℤ, pos,
  neg, Endian, done,
}
use vsnfs.Protocol.{VsnfsFh, maxpathlen}
use vsnfs.Kernel.{Sunrpc, Strtoul}
use vsnfs.Vfs.{Vfs}
use vsnfs.ServerXdr.{ReaddirArgs, ReadArgs, ReaddirRes}
use vsnfs.Server.{Node, Table, find_node, fh_memory, vsnfsd_fh_to_path, strncpy}
use mathlib.Core.Option.{some_inj}
use vsnfs.Server.Files.{vsnfsd_open, vsnfsd_proc_readdir, vsnfsd_proc_read}
use vsnfs.Server.Spec.{path_of}
use vsnfs.Server.Same.{Same}

module _ {File : Type 0} (x : Sunrpc) (s : Strtoul) (vfs : Vfs File ReaddirRes) (e : Endian) where
  path_answer :
      (len : ℕ) (n n' : Option Node)
      → path_of n ≡ path_of n'
      → elim n as (λ _. ℤ × List ℕ) [ none ↦ (neg 1, []) | some m ↦ (pos 0, strncpy m.path len) ]
        ≡ elim n' as (λ _. ℤ × List ℕ) [ none ↦ (neg 1, []) | some m ↦ (pos 0, strncpy m.path len) ]
  path_answer len none none same = refl
  path_answer len (some n) (some n') same =
      ap (λ (path : List ℕ). (pos 0, strncpy path len)) (some_inj.0 same)
  path_answer len none (some n') same = absurd (cc same)
  path_answer len (some n) none same = absurd (cc same)

  vsnfsd_fh_to_path-Same :
      (t t' : Table) (fh : VsnfsFh) (len : ℕ)
      → Same t t'
      → vsnfsd_fh_to_path s e t fh len ≡ vsnfsd_fh_to_path s e t' fh len
  unfolding vsnfsd_fh_to_path
  vsnfsd_fh_to_path-Same none none fh len same = refl
  vsnfsd_fh_to_path-Same (some ns) (some ns') fh len same =
      let ino = s.simple_strtoul (fh_memory e fh) in
      ap (λ (q : ℤ × List ℕ). if ino == 0 then done (neg 1, []) else done q)
        (path_answer len (find_node ino ns) (find_node ino ns') (same ino))
  vsnfsd_fh_to_path-Same none (some ns') fh len same = absurd same
  vsnfsd_fh_to_path-Same (some ns) none fh len same = absurd same

  vsnfsd_open-Same :
      (alloc : Bool) (t t' : Table) (fh : VsnfsFh)
      → Same t t'
      → vsnfsd_open s vfs e alloc t fh ≡ vsnfsd_open s vfs e alloc t' fh
  unfolding vsnfsd_open
  vsnfsd_open-Same false t t' fh same = refl
  vsnfsd_open-Same true t t' fh same = rw (vsnfsd_fh_to_path-Same t t' fh maxpathlen same) refl

  pub vsnfsd_proc_readdir-Same :
      (stack : List ℕ) (alloc : Bool) (t t' : Table) (args : ReaddirArgs)
      → Same t t'
      → vsnfsd_proc_readdir s vfs e x stack alloc t args
        ≡ vsnfsd_proc_readdir s vfs e x stack alloc t' args
  unfolding vsnfsd_proc_readdir
  vsnfsd_proc_readdir-Same stack alloc t t' args same =
      rw (vsnfsd_open-Same alloc t t' args.fh same) refl

  pub vsnfsd_proc_read-Same :
      (alloc : Bool) (position : ℕ) (t t' : Table) (args : ReadArgs)
      → Same t t'
      → vsnfsd_proc_read s vfs e alloc position t args
        ≡ vsnfsd_proc_read s vfs e alloc position t' args
  unfolding vsnfsd_proc_read
  vsnfsd_proc_read-Same alloc position t t' args same =
      rw (vsnfsd_open-Same alloc t t' args.fh same) refl
