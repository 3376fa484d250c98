-- ===== src/Rpc/Arrive.antt =====
-- What a client does at the end of a walk: a READ or a READDIR (vsnfsProc.c, vsnfsDir.c) by the handle
-- that the last lookup gave, with the server's table (server/vsnfsproc.c, server/vfs.c) passed on.
use vsnfs.Base.{
  ℕ, ◌^◌, ◌<◌, ◌≤◌, ◌≡◌, ◌≢◌, ap, ◌∙◌, List, [], some, true, false, if◌then◌else◌, ℤ, pos, neg,
  is_neg, Endian, done, length, IsWord, All,
}
use Prim.Native.Nat.{min}
use vsnfs.Protocol.{VsnfsFh, VsnfsStat, vsnfserr, maxpathlen}
use vsnfs.Kernel.{Sunrpc, Strtoul, page_size}
use vsnfs.Vfs.{Vfs, Inode, other}
use vsnfs.Errno.Constants
use vsnfs.ClientXdr.{VsnfsEntry}
use vsnfs.ServerXdr.{ReaddirRes, has_nul}
use vsnfs.Server.{Node}
use vsnfs.Server.Files.{vsnfsd_open, filler, start_res, entry_words}
use vsnfs.Server.Lookup.{fh_for}
use vsnfs.Server.Open.{vsnfsd_open-known}
use vsnfs.Server.Resolve.{plenty}
use vsnfs.Server.Spec.{View, nodes_view}
use vsnfs.Dir.{Filldir, Left, vsnfs_readdir}
use vsnfs.Readdir.Encode.{total_words}
use vsnfs.Readdir.Loop.{IsSent, deliver}
use vsnfs.Readdir.EndToEnd.{has_entry}
use vsnfs.Client.Lookup.{fh_for-IsFh}
use vsnfs.Rpc.Ops.{vsnfs_clientops}
use vsnfs.Rpc.Serve.{Surroundings, serve}
use vsnfs.Rpc.Read.{read_page, vsnfs_proc_read-rpc}
use vsnfs.Rpc.Readdir.{vsnfs_readdir-rpc}
use vsnfs.Rpc.Walk.{Chain, walk, walk-Chain}

module _ {File : Type 0} (x : Sunrpc) (s : Strtoul) (vfs : Vfs File ReaddirRes) (e : Endian)
    (env : Surroundings) (empty : env.rqstp.head ≡ []) (eight : length env.resp.handle ≡ 8)
    (memory : env.alloc ≡ plenty) (there : env.file_path ≡ true) (newfh : VsnfsFh)
    (names : List (List ℕ)) (ns : List Node) (dir last : Inode) (v : View) (path : List ℕ)
    (file : File) (start_small : dir.i_ino < 10 ^ 7) (start_kind : dir.kind ≢ other)
    (chain : Chain x s vfs e (nodes_view ns) dir names v last) (positive : 0 < last.i_ino)
    (small : last.i_ino < 10 ^ 7) (kind : last.kind ≢ other) (known : v last.i_ino ≡ some path)
    (clean : has_nul path ≡ false) (short : length path < maxpathlen)
    (opens : vfs.filp_open path ≡ some file) where
  walked :
      (ns' : List Node) × (walk
          (vsnfs_clientops x (serve x s vfs e env))
          newfh
          (some ns)
          (fh_for env.resp dir)
          names
        ≡ done ((pos 0, fh_for env.resp last), some ns'))
      × (vsnfsd_open s vfs e true (some ns') (fh_for env.resp last)
          ≡ done (vsnfserr e VsnfsStat.ok, some file))
  walked =
      let (ns', ran, is) =
        walk-Chain x s vfs e env empty eight memory newfh names ns dir last v start_small start_kind
          chain in
      (
        ns',
        ran,
        vsnfsd_open-known s vfs e ns' env.resp.handle last.i_ino _ path file positive small
            (ap (λ (u : View). u last.i_ino) is ∙ known) clean short opens,
      )

  -- A client that looks up names one after the other and then reads what it arrives at, through the
  -- RPC layer, where the server's memory is there, the file system has the names along the known
  -- paths (`Chain`), the last inode's path is a C string shorter than VSNFS_MAXPATHLEN and can be
  -- opened, `vfs_read` does not fail and the client's buffer has a word behind the status: each lookup
  -- succeeds, and so does the READ, with the count that the client's own variable held before. The
  -- first bytes of the client's page, as many as it asked for, are `read_page`: the server's count as a
  -- word, and then what `vfs_read` gives for the file of that path, for at most a page at the position
  -- that the server's variable held before, and no more of it than the reply's `page_len`.
  pub walk-read :
      (rslack base : ℕ) (page : List ℕ) (offset count held n position : ℕ) (bytes : List ℕ)
      → 4 ≤ length env.more
      → IsWord count
      → vfs.vfs_read file (min count page_size) env.position ≡ (pos n, bytes, position)
      → let ops = vsnfs_clientops x (serve x s vfs e env) in
        (ns' : List Node) × (walk ops newfh (some ns) (fh_for env.resp dir) names
          ≡ done ((pos 0, fh_for env.resp last), some ns'))
        × (ops.read (some ns') rslack base (fh_for env.resp last) page offset count held
            ≡ done ((pos 0, read_page env count n bytes, held), some ns'))
  walk-read rslack base page offset count held n position bytes room word got =
      let (ns', ran, opened) = walked in
      (
        ns',
        ran,
        vsnfs_proc_read-rpc x s vfs e env empty (some ns') (fh_for env.resp last)
            (fh_for-IsFh env.resp last eight kind) file (rw there opened) rslack offset count word
            bytes n position got base page held room,
      )

  -- A client that looks up names one after the other and then lists the directory that it arrives
  -- at, through the RPC layer, where the server's memory is there, the file system has the names along
  -- the known paths (`Chain`), the last inode's path is a C string shorter than VSNFS_MAXPATHLEN and can be opened,
  -- `vfs_readdir` does not fail, and the entries' numbers fit their words and all entries the page:
  -- each lookup succeeds, and the client's `filldir`, if it never refuses, gets every entry of the
  -- directory of that path once and in order. The client's result is 0 if there is an entry, and
  -- -EBADCOOKIE for an empty directory.
  pub walk-readdir :
      {User : Type 0} (filldir : User → Filldir → ℤ × User)
      → ((u : User) (ev : Filldir) → is_neg (filldir u ev).0 ≡ false)
      → length env.stack ≡ 8
      → (rslack : ℕ) (old : List ℕ) (user : User) (entry : VsnfsEntry)
      → is_neg (vfs.vfs_readdir file (filler x e env.stack) (start_res s vfs e page_size)).0 ≡ false
      → All IsSent (vfs.entries file)
      → total_words x e env.stack (vfs.entries file) ≤ entry_words s vfs e page_size
      → let ops = vsnfs_clientops x (serve x s vfs e env) in
        (ns' : List Node) × (page : List ℕ) × (left : Left User) × (walk ops newfh
            (some ns)
            (fh_for env.resp dir)
            names
          ≡ done ((pos 0, fh_for env.resp last), some ns'))
        × (ops.readdir (some ns') rslack (fh_for env.resp last) old page_size
            ≡ done ((pos 0, page), some ns'))
        × (vsnfs_readdir x filldir true (pos 0, page) 0 user entry ≡ done left)
        × (left.user ≡ deliver filldir user (vfs.entries file))
        × (left.res ≡ (if has_entry (vfs.entries file) then pos 0 else neg Constants.ebadcookie))
  walk-readdir filldir accepts eight_bytes rslack old user entry reads sent fits =
      let (ns', ran, opened) = walked in
      let (page, left, called, read, delivered, result) =
        vsnfs_readdir-rpc x s vfs e env empty (some ns') (fh_for env.resp last)
          (fh_for-IsFh env.resp last eight kind) rslack there eight_bytes filldir accepts file old
          user entry opened reads sent fits in
      (ns', page, left, ran, called, read, delivered, result)
