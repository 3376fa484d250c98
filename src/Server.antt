-- ===== src/Server.antt =====
-- server/vsnfsproc.c and server/vfs.c: the server's procedures over its lookup table.
use vsnfs.Base.{
  ℕ, ◌+◌, ◌-◌, ◌/◌, ◌%◌, ◌^◌, List, [], ◌∷◌, ◌++◌, Option, none, some, Bool, true, false, ◌==◌, leb,
  ltb, if◌then◌else◌, ℤ, pos, negsuc, neg, is_neg, Endian, store32, Run, done, oops, null_pointer,
  out_of_bounds, need, ◌>>=◌, ◌>>◌, length, take, replicate,
}
use vsnfs.Protocol.{VsnfsFh, VsnfsStat, vsnfserr, reg, dir, maxpathlen}
use vsnfs.Kernel.{Sunrpc, Strtoul}
use vsnfs.Errno.{vsnfserrno}
use vsnfs.Handle.{handle_of}
use vsnfs.Vfs.{Vfs, Inode, FileKind, Dirent, regular, directory, other}
use vsnfs.ServerXdr.{
  GetrootArgs, LookupArgs, ReaddirArgs, ReadArgs, ReaddirRes, vsnfssvc_encode_entry,
}
pub mod Lookup
pub mod Getroot
pub mod Files
pub mod Texts
pub mod Table
pub mod Resolve
pub mod Reach
pub mod Spec
pub mod Refine
pub mod Simulate
pub mod Honest
pub mod Crash
pub mod Same
pub mod Open
pub mod Again

-- `struct vsnfs_lookup_table`: an inode number and its path, a C string without its NUL.
pub record Node : Type 0 where
  pub ino : ℕ
  pub path : List ℕ

-- The list `vsnfs_lp_tab`, newest first; `none` until `getroot` makes its head.
abbrev pub Table : Type 0
Table = Option (List Node)

-- Which calls of `kmalloc` return memory.
pub record Kmalloc : Type 0 where
  pub path : Bool
  pub nd : Bool
  pub node : Bool
  pub node_path : Bool

-- `list_for_each_entry` starts from the head's pointers, which are null in a head of zeros.
abbrev pub nodes : Table → Run (List Node)
nodes none = oops null_pointer
nodes (some ns) = done ns

unfoldable pub find_node : ℕ → List Node → Option Node
find_node ino [] = none
find_node ino (n ∷ ns) = if n.ino == ino then some n else find_node ino ns

-- The C string at the start of a buffer.
unfoldable pub until_nul : List ℕ → List ℕ
until_nul [] = []
until_nul (c ∷ cs) = if c == 0 then [] else c ∷ until_nul cs

unfoldable pub cstring : List ℕ → Run (List ℕ)
cstring [] = oops out_of_bounds
cstring (c ∷ cs) = let rest = cstring cs in if c == 0 then done [] else (do s ← rest; done (c ∷ s))

-- `strncpy(path, src, len)`, which ends the copy by a NUL only if there is room for one.
unfoldable pub strncpy : List ℕ → ℕ → List ℕ
strncpy src len = take len (src ++ replicate len 0)

-- The memory from a handle's bytes on: its type stands behind them.
abbrev pub fh_memory : Endian → VsnfsFh → List ℕ
fh_memory e fh = fh.handle ++ store32 e fh.type

-- `-vsnfserr_nospc`, the negation of a number in network order.
abbrev pub minus : ℕ → ℕ
minus status = (2 ^ 32 - status) % 2 ^ 32

-- An `int` that is stored as a `__be32`.
abbrev pub word_of_int : ℤ → ℕ
word_of_int (pos n) = n % 2 ^ 32
word_of_int (negsuc n) = 2 ^ 32 - (n + 1)

unfoldable pub ends_in_slash : List ℕ → Bool
ends_in_slash [] = false
ends_in_slash (c ∷ []) = c == b'/'
ends_in_slash (c ∷ (d ∷ ds)) = ends_in_slash (d ∷ ds)

-- `if (path[len - 1] != '/')`: a slash is appended, in a buffer of `room` bytes.
unfoldable pub add_slash : (room : ℕ) → List ℕ → Run (List ℕ)
unfolding ends_in_slash
add_slash room [] = oops out_of_bounds
add_slash room (c ∷ cs) =
    if ends_in_slash (c ∷ cs)
    then done (c ∷ cs)
    else need (leb (length (c ∷ cs) + 2) room) out_of_bounds >> done ((c ∷ cs) ++ b'/' ∷ [])

abbrev pub type_of : FileKind → ℕ → ℕ
type_of regular old = reg
type_of directory old = dir
type_of other old = old

-- What a procedure leaves: the table, the status that it returns, and the handle of the reply.
pub record Reply : Type 0 where
  pub table : Table
  pub status : ℕ
  pub resp : VsnfsFh

-- A handle's inode number, looked for in the table: 0 and the path in the caller's buffer, or -1.
unfoldable pub vsnfsd_fh_to_path : Strtoul → Endian → Table → VsnfsFh → ℕ → Run (ℤ × List ℕ)
unfolding find_node strncpy
vsnfsd_fh_to_path s e table fh len =
    let ino = s.simple_strtoul (fh_memory e fh) in
    if ino == 0 then done (neg 1, []) else do
      ns ← nodes table
      done (elim (find_node ino ns) [ none ↦ (neg 1, []) | some n ↦ (pos 0, strncpy n.path len) ])

-- The status, and `resp->dummy = argp->dummy + 1` on bit patterns.
unfoldable pub vsnfsd_proc_null : Endian → ℕ → ℕ × ℕ
vsnfsd_proc_null e dummy = (vsnfserr e VsnfsStat.ok, (dummy + 1) % 2 ^ 32)
