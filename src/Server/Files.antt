-- ===== src/Server/Files.antt =====
-- server/vfs.c, and `vsnfsd_proc_readdir` and `vsnfsd_proc_read` of server/vsnfsproc.c.
use vsnfs.Base.{
  ℕ, ◌-◌, ◌/◌, List, [], Option, none, some, Bool, true, false, ◌==◌, not, ◌||◌, if◌then◌else◌, ℤ,
  pos, negsuc, eqb, is_neg, Endian, Run, done, ◌>>=◌, length,
}
use vsnfs.Protocol.{VsnfsFh, VsnfsStat, vsnfserr, maxpathlen}
use vsnfs.Kernel.{Sunrpc, Strtoul}
use vsnfs.Errno.{vsnfserrno}
use vsnfs.Vfs.{Vfs, Dirent}
use vsnfs.ServerXdr.{ReaddirArgs, ReadArgs, ReaddirRes, vsnfssvc_encode_entry}
use vsnfs.Server.{Table, cstring, vsnfsd_fh_to_path}

-- `vfs_readdir` calls this filler.
unfoldable pub filler : Sunrpc → Endian → List ℕ → Dirent → ReaddirRes → ℤ × ReaddirRes
filler x e stack d = vsnfssvc_encode_entry x e stack d.name (length d.name) d.offset d.ino d.d_type

module _ {File : Type 0} (s : Strtoul) (vfs : Vfs File ReaddirRes) (e : Endian) where
  -- The status, and the file if the status is 0. `alloc` tells whether the path's buffer was got.
  unfoldable pub vsnfsd_open : (alloc : Bool) → Table → VsnfsFh → Run (ℕ × Option File)
  unfolding vsnfsd_fh_to_path cstring
  vsnfsd_open false table fh = done (vsnfserr e VsnfsStat.nospc, none)
  vsnfsd_open true table fh = do
    (ret, path) ← vsnfsd_fh_to_path s e table fh maxpathlen
    if eqb ret (pos 0)
        then (do
          path' ← cstring path
          done (elim (vfs.filp_open path') [
            | none ↦ (vsnfserr e VsnfsStat.io, none)
            | some filp ↦ (vsnfserr e VsnfsStat.ok, some filp)
          ]))
        else done (vsnfserr e VsnfsStat.noent, none)

  unfoldable pub vsnfsd_close : File → ℕ
  vsnfsd_close filp =
      if eqb (vfs.filp_close filp) (pos 0) then vsnfserr e VsnfsStat.ok else vsnfserr e VsnfsStat.io

  -- The status and the filler's state. What `vsnfsd_close` answers is dropped.
  unfoldable pub readdir_file :
      Sunrpc → (stack : List ℕ) → ReaddirRes → ℕ × Option File → ℕ × ReaddirRes
  readdir_file x stack res (err, none) = (err, res)
  readdir_file x stack res (err, some file) =
      let (ret, res') = vfs.vfs_readdir file (filler x e stack) res in
      ((if is_neg ret then vsnfserrno e ret else err), res')

  unfoldable pub vsnfsd_readdir :
      Sunrpc → (stack : List ℕ) → Bool → Table → VsnfsFh → ReaddirRes → Run (ℕ × ReaddirRes)
  unfolding readdir_file
  vsnfsd_readdir x stack alloc table fh res = do
    opened ← vsnfsd_open alloc table fh
    done (readdir_file x stack res opened)

  -- The words of the reply's page that the entries may use: two are kept for the end mark.
  abbrev pub entry_words : ℕ → ℕ
  entry_words count = count / 4 - 2

  -- `resp` before the directory is read.
  abbrev pub start_res : (count : ℕ) → ReaddirRes
  start_res count = record {
    count = 0;
    err = vsnfserr e VsnfsStat.ok;
    buffer = [];
    buflen = entry_words count;
    offset = none;
  }

  -- The result is the status and `resp`; `count` is the number of words written.
  unfoldable pub vsnfsd_proc_readdir :
      Sunrpc → (stack : List ℕ) → Bool → Table → ReaddirArgs → Run (ℕ × ReaddirRes)
  unfolding vsnfsd_readdir
  vsnfsd_proc_readdir x stack alloc table args = do
    (vfserr, res) ← vsnfsd_readdir x stack alloc table args.fh (start_res args.count)
    let keeps = vfserr == 0 || not (res.err == vsnfserr e VsnfsStat.ok)
    done (
      vfserr,
      record res { err = if keeps then res.err else vfserr; count = length res.buffer / 4 },
    )

  -- `pos` is the position that the caller passes, and the count of bytes read after a success.
  unfoldable pub read_file : (count position : ℕ) → ℕ × Option File → ℕ × List ℕ × ℕ
  read_file count position (err, none) = (err, [], position)
  read_file count position (err, some filp) =
      let (host_err, bytes, position') = vfs.vfs_read filp count position in
      elim host_err [
        | pos n ↦ (err, bytes, n)
        | negsuc n ↦ (vsnfserrno e (negsuc n), bytes, position')
      ]

  unfoldable pub vsnfsd_read : Bool → Table → VsnfsFh → (count position : ℕ) → Run (ℕ × List ℕ × ℕ)
  unfolding read_file
  vsnfsd_read alloc table fh count position = do
    opened ← vsnfsd_open alloc table fh
    done (read_file count position opened)

  -- The status, the bytes put into the reply's page, and `resp->count`. `args->offset` is not used:
  -- the file is read from `position`, what the local variable `pos` holds before.
  unfoldable pub vsnfsd_proc_read : Bool → (position : ℕ) → Table → ReadArgs → Run (ℕ × List ℕ × ℕ)
  unfolding vsnfsd_read
  vsnfsd_proc_read alloc position table args = vsnfsd_read alloc table args.fh args.count position
