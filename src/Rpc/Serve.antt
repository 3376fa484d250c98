-- ===== src/Rpc/Serve.antt =====
-- The server as an implementation of the RPC layer's call: each procedure of the table in
-- server/vsnfsproc.c through the dispatch of server/vsnfssvc.c.
use vsnfs.Base.{
  ℕ, List, [], ◌++◌, take, drop, take-append, drop-append, be32, length-be32, ◌≡◌, refl, Option,
  none, some, Bool, ℤ, Endian, Run, done, ◌>>=◌,
}
use vsnfs.Protocol.{VsnfsFh}
use vsnfs.Kernel.{Sunrpc, Strtoul}
use vsnfs.Vfs.{Vfs}
use vsnfs.ClientXdr.{RpcRqst, Proc, null, getroot, lookup, readdir, read}
use vsnfs.ServerXdr.{SvcRqst, ReaddirRes}
use vsnfs.Server.{Table, Kmalloc}
use vsnfs.Server.Files.{start_res}
use vsnfs.Wire.Args.{received}
use vsnfs.Svc.{Accept, untouched, garbage_args, system_err, SvcProcedure, vsnfsd_dispatch}
use vsnfs.Svc.Procedures.{
  null_procedure, getroot_procedure, lookup_procedure, readdir_procedure, read_procedure,
}
use vsnfs.Rpc.{Answer, refused, reply, Call}

-- What the server's surroundings give it in one call: the memory that `kmalloc` finds, the request
-- with its reply still empty, what follows a request and a reply in memory, what the memory for a
-- response and the stack hold before, where in its page a reply's status stands, and what the RPC layer makes of a refused request.
pub record Surroundings : Type 0 where
  pub alloc : Kmalloc
  pub file_path : Bool
  pub rqstp : SvcRqst
  pub stale : List ℕ
  pub more : List ℕ
  pub resp : VsnfsFh
  pub stack : List ℕ
  pub position : ℕ
  pub head_at : ℕ
  pub garbage : ℤ
  pub failed : ℤ

module _ {File : Type 0} (x : Sunrpc) (s : Strtoul) (vfs : Vfs File ReaddirRes) (e : Endian)
    (env : Surroundings) where
  open env use {
    alloc, file_path, rqstp, stale, more, resp, stack, position, head_at, garbage, failed,
  }

  -- A reply goes out unless the dispatch noted an error of the RPC layer.
  abbrev pub answer : (carry : SvcRqst → Answer) → Accept → SvcRqst → Answer
  answer carry untouched rq = carry rq
  answer carry garbage_args rq = refused garbage
  answer carry system_err rq = refused failed

  abbrev pub through :
      {Args Resp : Type 0}
      → (carry : SvcRqst → Answer) → SvcProcedure Args Resp Table
      → Table
      → RpcRqst
      → Resp
      → Run (Answer × Table)
  through carry proc table sent blank_resp = do
    d ← vsnfsd_dispatch e proc (received rqstp sent) (sent.svec ++ stale) table blank_resp
    done (answer carry d.statp d.rqstp, d.state)

  -- The call, where `carry` is what becomes of a reply on its way.
  unfoldable pub serve_by : (carry : Proc → RpcRqst → SvcRqst → Answer) → Call Table
  serve_by carry table null sent = through (carry null sent) (null_procedure x s vfs e) table sent 0
  serve_by carry table getroot sent =
      through (carry getroot sent) (getroot_procedure x s vfs e alloc) table sent resp
  serve_by carry table lookup sent =
      through (carry lookup sent) (lookup_procedure x s vfs e alloc) table sent resp
  serve_by carry table readdir sent =
      through (carry readdir sent) (readdir_procedure x s vfs e file_path stack) table sent
        (start_res s vfs e 0)
  serve_by carry table read sent =
      through (carry read sent) (read_procedure x s vfs e file_path position head_at) table sent
        ([], 0)

  -- The bytes of a reply behind the header of the RPC layer: the head and `page_len` bytes of the page.
  abbrev pub stream : SvcRqst → List ℕ
  stream rq = rq.head ++ take rq.page_len (rq.page ++ more)

  -- How the client's buffer takes a stream: as many bytes as `xdr_inline_pages` left for results stay
  -- in its head, the next ones go to its pages, and what is left stands somewhere behind the head.
  -- The header of the RPC layer is taken to fill the room that was left for it.
  abbrev pub split : Option (ℕ × ℕ × ℕ) → List ℕ → Answer
  split none bytes = reply (bytes ++ more) more
  split (some (header, results, count)) bytes =
      reply (take results bytes ++ more) (take count (drop results bytes) ++ more)

  pub split-be32 :
      (header status count : ℕ) (bytes : List ℕ)
      → split (some (header, 4, count)) (be32 status ++ bytes)
        ≡ reply (be32 status ++ more) (take count bytes ++ more)
  split-be32 header status count bytes =
      rw
        (
          take-append 4 (be32 status) bytes (length-be32 status),
          drop-append 4 (be32 status) bytes (length-be32 status),
        )
        refl

  -- What a client gets of a reply. But for READ, the head has the results that the client expects
  -- there, and so the page begins in the stream where the client's pages do.
  abbrev pub arrives : Proc → RpcRqst → SvcRqst → Answer
  arrives null sent rq = reply (rq.head ++ more) (rq.page ++ more)
  arrives getroot sent rq = reply (rq.head ++ more) (rq.page ++ more)
  arrives lookup sent rq = reply (rq.head ++ more) (rq.page ++ more)
  arrives readdir sent rq = reply (rq.head ++ more) (rq.page ++ more)
  arrives read sent rq = split sent.rcv_pages (stream rq)

  unfoldable pub serve : Call Table
  unfolding serve_by
  serve = serve_by arrives
