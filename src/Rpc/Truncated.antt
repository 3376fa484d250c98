-- ===== src/Rpc/Truncated.antt =====
-- A READ (vsnfsProc.c) by the handle of a file whose inode number does not fit the handle, through
-- the RPC layer: what `snprintf` in `vsnfsd_proc_lookup` (server/vsnfsproc.c) cuts off is the
-- difference of two files.
use vsnfs.Base.{
  ℕ, suc, ==_iff, refl, Bool, ◌*◌, ◌/◌, ◌^◌, ◌<◌, ◌≤◌, ◌≡◌, ◌≢◌, ap, ◌∙◌, List, [], some, true,
  false, pos, Endian, done, length, IsWord, store32, Bool-cases, inl, inr, ◌==◌,
}
use Prim.Native.Nat.{min}
use vsnfs.Protocol.{VsnfsFh, maxpathlen}
use vsnfs.Kernel.{Sunrpc, Strtoul, page_size}
use vsnfs.Handle.Cut.{strtoul-handle_of_long, cut_lt}
use vsnfs.Vfs.{Vfs, Inode, other}
use vsnfs.ServerXdr.{ReaddirRes, has_nul}
use vsnfs.Server.{Node}
use vsnfs.Server.Files.{vsnfsd_open}
use vsnfs.Server.Lookup.{fh_for}
use vsnfs.Server.Open.{vsnfsd_open-number}
use vsnfs.Server.Resolve.{plenty}
use vsnfs.Server.Spec.{View, nodes_view, learn}
use vsnfs.Client.Lookup.{fh_for-IsFh}
use vsnfs.Rpc.Ops.{vsnfs_clientops}
use vsnfs.Rpc.Serve.{Surroundings, serve}
use vsnfs.Rpc.Read.{read_page, vsnfs_proc_read-rpc}
use vsnfs.Rpc.Walk.{IsBelow, one_lookup}

-- A path that is known stays known.
learn-known :
    (v : View) (ino ino' : ℕ) (path path' : List ℕ)
    → v ino' ≡ some path'
    → learn v ino path ino' ≡ some path'
learn-known v ino ino' path path' known = elim (Bool-cases (ino == ino')) [
  | inl same ↦
      let found : v ino ≡ some path' = rw ((==_iff ino ino').0 same) known in rw (same, found) refl
  | inr differ ↦ rw differ known
]

module _ {File : Type 0} (x : Sunrpc) (s : Strtoul) (vfs : Vfs File ReaddirRes) (e : Endian)
    (env : Surroundings) (empty : env.rqstp.head ≡ []) (eight : length env.resp.handle ≡ 8)
    (memory : env.alloc ≡ plenty) (there : env.file_path ≡ true) (newfh : VsnfsFh) where
  -- A client that looks up a name of an inode whose number has `k` + 1 digits more than seven, and then
  -- reads by the handle, through the RPC layer, where the server's memory is there and the directory
  -- is known (`IsBelow`): the lookup succeeds, and if the table has a path for the number without its
  -- last `k` + 1 digits, a C string shorter than VSNFS_MAXPATHLEN that can be opened, `vfs_read` does not
  -- fail and the client's buffer has a word behind the status, then the READ succeeds, and what its page
  -- has of a file (`read_page`: behind the server's count, as much as `page_len` lets through and the
  -- client asked for) are the bytes of the file of that path, which is known for a smaller number.
  pub lookup-read_cut :
      (ns : List Node) (dir inode : Inode) (path name : List ℕ) (k : ℕ) (path' : List ℕ)
      (file : File) (rslack base : ℕ) (page : List ℕ) (offset count held n position : ℕ)
      (bytes : List ℕ)
      → dir.i_ino < 10 ^ 7
      → dir.kind ≢ other
      → IsBelow x s vfs e (nodes_view ns) dir path name inode
      → 10 ^ 6 * 10 ^ suc k ≤ inode.i_ino
      → inode.i_ino < 10 ^ 7 * 10 ^ suc k
      → inode.i_ino < 2 ^ 63
      → nodes_view ns (inode.i_ino / 10 ^ suc k) ≡ some path'
      → has_nul path' ≡ false
      → length path' < maxpathlen
      → vfs.filp_open path' ≡ some file
      → 4 ≤ length env.more
      → IsWord count
      → vfs.vfs_read file (min count page_size) env.position ≡ (pos n, bytes, position)
      → let ops = vsnfs_clientops x (serve x s vfs e env) in
        (inode.i_ino / 10 ^ suc k < inode.i_ino)
        × (ns' : List Node) × (ops.lookup
              (some ns)
              (record { fh = fh_for env.resp dir; filename = name; len = length name })
              newfh
            ≡ done ((pos 0, fh_for env.resp inode), some ns'))
        × (ops.read (some ns') rslack base (fh_for env.resp inode) page offset count held
            ≡ done ((pos 0, read_page env count n bytes, held), some ns'))
  lookup-read_cut ns dir inode path name k path' file rslack base page offset count held n position
        bytes small kind below low high fits known clean short opens room word got =
      let (ns', looked, learnt) =
        one_lookup x s vfs e env empty eight memory newfh ns dir inode path name small kind below in
      let fh = fh_for env.resp inode in
      let opened =
        vsnfsd_open-number s vfs e ns' fh (inode.i_ino / 10 ^ suc k) path' file
          (cut_lt inode.i_ino k low).0
          (strtoul-handle_of_long s env.resp.handle (store32 e fh.type) inode.i_ino (suc k) low high
            fits)
          (ap (λ (v : View). v (inode.i_ino / 10 ^ suc k)) learnt
            ∙ learn-known (nodes_view ns) inode.i_ino (inode.i_ino / 10 ^ suc k) _ path' known)
          clean short opens in
      (
        (cut_lt inode.i_ino k low).1,
        ns',
        looked,
        vsnfs_proc_read-rpc x s vfs e env empty (some ns') fh
            (fh_for-IsFh env.resp inode eight below.kind) file
            (ap (λ (b : Bool). vsnfsd_open s vfs e b (some ns') fh) there ∙ opened) rslack offset
            count word bytes n position got base page held room,
      )
