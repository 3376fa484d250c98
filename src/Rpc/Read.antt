-- ===== src/Rpc/Read.antt =====
-- A whole READ through the RPC layer: `vsnfs_proc_read` (vsnfsProc.c) with the server's dispatch and
-- `vsnfsd_proc_read` (server/vsnfsproc.c) behind it.
use vsnfs.Base.{
  ℕ, ◌%◌, ◌^◌, ◌≡◌, refl, List, [], ◌++◌, take, ◌*◌, ◌≤◌, get_be32-long, some, ℤ, pos, Endian,
  cpu_to_be32_zero, done, length, be32, length-be32, length-append, leb, leb_of_le, true, ap,
  append_assoc, get_be32-be32, IsWord, ◌+◌, ◌-◌, arith,
}
use Prim.Native.Nat.{min}
use vsnfs.Protocol.{VsnfsFh, VsnfsStat, vsnfserr, IsFh}
use vsnfs.Kernel.{Sunrpc, Strtoul, page_size}
use vsnfs.Vfs.{Vfs}
use vsnfs.ClientXdr.{RpcRqst, read, vsnfs_xdr_readargs, vsnfs_xdr_readres}
use vsnfs.ServerXdr.{ReaddirRes, vsnfssvc_encode_readres}
use vsnfs.Server.{Table}
use vsnfs.Server.Files.{vsnfsd_open, vsnfsd_proc_read, read_file}
use vsnfs.Wire.Args.{blank, readargs_roundtrip, vsnfs_xdr_readargs-rcv_pages}
use vsnfs.Svc.{vsnfsd_dispatch}
use vsnfs.Svc.Null.{store32_zero}
use vsnfs.Rpc.{reply, vsnfs_proc_read}
use vsnfs.Rpc.Serve.{Surroundings, split-be32, serve, serve_by}

-- The status is read, the word behind it is written over.
readres_ok :
    (x : Sunrpc) (req : RpcRqst) (base : ℕ) (more : List ℕ) (count : ℕ)
    → 4 ≤ length more
    → (req' : RpcRqst) × (head : List ℕ) × (vsnfs_xdr_readres x req base (be32 0 ++ more) count
        ≡ done (pos 0, req', head))
unfolding vsnfs_xdr_readres
readres_ok x req base more count room =
    let (word, rest, got) = get_be32-long more room in
    (
      record req { slen = x.adjust_iovec (base + 8) },
      be32 0 ++ (be32 count ++ rest),
      rw (get_be32-be32 0 more (omega arith), got) refl,
    )

-- `page_len`, as the server's encoder makes it of the end of the head.
abbrev pub readres_page_len : Surroundings → ℕ
readres_page_len env = (env.head_at + 7) % page_size + 1

-- What a client's page has after a READ of `count` bytes for which the server read `bytes`: the
-- server's count comes first, then as many bytes as `page_len` says.
abbrev pub read_page : Surroundings → (count n : ℕ) → (bytes : List ℕ) → List ℕ
read_page env count n bytes =
    take count (be32 (n % 2 ^ 32) ++ take (readres_page_len env) (bytes ++ env.more)) ++ env.more

module _ {File : Type 0} (x : Sunrpc) (s : Strtoul) (vfs : Vfs File ReaddirRes) (e : Endian)
    (env : Surroundings) (empty : env.rqstp.head ≡ []) (table : Table) (fh : VsnfsFh) (ok : IsFh fh)
    (file : File)
    (opened : vsnfsd_open s vfs e env.file_path table fh
      ≡ done (vsnfserr e VsnfsStat.ok, some file))
    (rslack : ℕ) (offset count : ℕ) (word : IsWord count) (bytes : List ℕ) (n position : ℕ)
    (got : vfs.vfs_read file (min count page_size) env.position ≡ (pos n, bytes, position)) where
  -- Whatever offset is asked for, the server reads at `env.position`.
  proc_read_ok :
      vsnfsd_proc_read s vfs e env.file_path env.position table (record {
        fh = fh;
        offset = offset % 2 ^ 32;
        count = min count page_size;
        buffer = env.rqstp.resused;
      })
      ≡ done (vsnfserr e VsnfsStat.ok, bytes, n)
  unfolding vsnfsd_proc_read read_file
  proc_read_ok =
      rw (opened, read_file, got)
        (ap (λ (q : ℤ × List ℕ × ℕ). done (vsnfserr e VsnfsStat.ok, q.1, n)) got)

  serve-read :
      serve x s vfs e env table read (
        vsnfs_xdr_readargs x blank rslack
          (record { fh = fh; offset = offset % 2 ^ 32; length = count }))
      ≡ done (reply (be32 0 ++ env.more) (read_page env count n bytes), table)
  unfolding serve serve_by vsnfsd_dispatch vsnfserr vsnfssvc_encode_readres
  serve-read =
      let counted = be32 (n % 2 ^ 32) in
      let fits : leb (length (be32 0 ++ counted)) page_size ≡ true =
        leb_of_le (length (be32 0 ++ counted)) page_size (
          omega (arith, length-append (be32 0) counted, length-be32 0, length-be32 (n % 2 ^ 32))) in
      let ends : env.head_at + length (be32 0 ++ counted) - 1 ≡ env.head_at + 7 =
        omega (arith, length-append (be32 0) counted, length-be32 0, length-be32 (n % 2 ^ 32)) in
      rw
        (
          readargs_roundtrip x env.rqstp rslack fh (offset % 2 ^ 32) count env.stale ok
              (omega arith) word,
          proc_read_ok,
          empty,
          cpu_to_be32_zero e,
          store32_zero e,
          x.ressize_check_lem (length (be32 0 ++ counted)),
          fits,
          vsnfs_xdr_readargs-rcv_pages x blank rslack
              (record { fh = fh; offset = offset % 2 ^ 32; length = count }),
          append_assoc (be32 0) counted (
              take ((env.head_at + length (be32 0 ++ counted) - 1) % page_size + 1)
                (bytes ++ env.more)),
          split-be32 x s vfs e env ((x.rephdrsize + rslack) * 4) 0 count (
              counted
              ++ take ((env.head_at + length (be32 0 ++ counted) - 1) % page_size + 1)
                  (bytes ++ env.more)),
          ends,
        )
        refl

  -- A client's READ of a file that the server opens, where `vfs_read` does not fail and the client's
  -- buffer has a word behind the status, returns 0 and leaves the server's table alone, and the count
  -- that the client reports is what its own variable held before. Its page does not begin with the
  -- file: in the first `count` bytes it has the server's count as a word, and behind it what `vfs_read`
  -- gives for at most a page at the position that the server's local variable held before, whatever
  -- offset is asked for, and of that no more bytes than `page_len`, which is one more than the position
  -- in its page of the last byte of the reply's head.
  pub vsnfs_proc_read-rpc :
      (base : ℕ) (page : List ℕ) (held : ℕ)
      → 4 ≤ length env.more
      → vsnfs_proc_read x (serve x s vfs e env) table rslack base fh page offset count held
        ≡ done ((pos 0, read_page env count n bytes, held), table)
  unfolding vsnfs_proc_read
  vsnfs_proc_read-rpc base page held room =
      let (req, head, read_back) =
        readres_ok x
          (vsnfs_xdr_readargs x blank rslack
            (record { fh = fh; offset = offset % 2 ^ 32; length = count }))
          base env.more held room in
      rw (serve-read, read_back) refl
