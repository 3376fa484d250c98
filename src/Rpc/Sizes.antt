-- ===== src/Rpc/Sizes.antt =====
-- Whole replies against the sizes that the two sides' tables give their heads: `pc_xdrressize` in
-- server/vsnfsproc.c and `p_replen` in vsnfsXdr.c.
use vsnfs.Base.{
  ℕ, ◌+◌, ◌*◌, ◌/◌, ◌≤◌, ◌≡◌, ◌⊎◌, inl, inr, refl, ap, sym, List, [], ◌++◌, Option, Bool, Endian,
  Run, done, >>=-eq-done, done-injective, length, length-append, length-take, length-be32, be32,
  get_be32, ◌%◌, ◌^◌, take, arith,
}
use vsnfs.Protocol.{VsnfsFh, fhsize}
use vsnfs.Kernel.{Sunrpc, Strtoul}
use vsnfs.Vfs.{Vfs}
use vsnfs.ClientXdr.{RpcRqst, Proc, null, getroot, lookup, readdir, read, replen}
use vsnfs.ServerXdr.{
  SvcRqst, ReaddirRes, ReaddirArgs, ReadArgs, encode_fh, vsnfssvc_encode_nullres,
  vsnfssvc_encode_fhandle, vsnfssvc_encode_readres, vsnfssvc_encode_readdirres,
  vsnfssvc_decode_readdirargs, vsnfssvc_decode_readargs, decode_fh,
}
use vsnfs.Server.{Table, Kmalloc}
use vsnfs.Svc.{Accept, untouched, garbage_args, system_err, SvcProcedure, vsnfsd_dispatch}
use vsnfs.Svc.Procedures.{
  leaving, null_procedure, getroot_procedure, lookup_procedure, readdir_procedure, read_procedure,
}
use vsnfs.Svc.Sizes.{IsSized, vsnfsd_dispatch-length}
use vsnfs.Wire.Args.{received}
use vsnfs.Rpc.{Answer, reply}
use vsnfs.Server.Files.{start_res}
use vsnfs.Rpc.Serve.{Surroundings, serve_by, through, answer}

-- ST, FH and VSNFSSVC_MAXBLKSIZE / 4, in words.
abbrev pub pc_xdrressize : Proc → ℕ
pc_xdrressize null = 1 + 1
pc_xdrressize getroot = 1 + 8
pc_xdrressize lookup = 1 + 8
pc_xdrressize readdir = 1
pc_xdrressize read = 1 + 8 * 1024 / 4

-- A reply as it leaves the server, before anything of it is sent.
abbrev pub leaves : Proc → RpcRqst → SvcRqst → Answer
leaves proc sent rq = reply rq.head rq.page

leaving-head :
    {A : Type 0} (decode : SvcRqst → List ℕ → Run (Option A)) (rqstp rqstp' : SvcRqst)
    (base : List ℕ) (args : Option A)
    → leaving decode rqstp base ≡ done (args, rqstp')
    → rqstp'.head ≡ rqstp.head
leaving-head {A} decode rqstp rqstp' base args h =
    let (made, ran, last) = >>=-eq-done (decode rqstp base) _ h in
    sym (ap (λ (q : Option A × SvcRqst). q.1.head) (done-injective last))

module _ {File : Type 0} (x : Sunrpc) (s : Strtoul) (vfs : Vfs File ReaddirRes) (e : Endian) where
  null-IsSized : IsSized (null_procedure x s vfs e) 4
  unfolding vsnfssvc_encode_nullres
  null-IsSized = record {
    encodes = λ rqstp resp. omega (arith, length-append rqstp.head (be32 resp), length-be32 resp);
    decodes = leaving-head _;
  }

  encode_fhandle-length :
      (rqstp : SvcRqst) (fh : VsnfsFh)
      → length (vsnfssvc_encode_fhandle x rqstp fh).1.head ≤ length rqstp.head + 12
  unfolding vsnfssvc_encode_fhandle encode_fh
  encode_fhandle-length rqstp fh = omega (
    arith,
    length-append (encode_fh rqstp.head fh) (be32 fh.type),
    length-append rqstp.head (take fhsize fh.handle),
    length-take fhsize fh.handle,
    length-be32 fh.type,
  )

  getroot-IsSized : (k : Kmalloc) → IsSized (getroot_procedure x s vfs e k) 12
  getroot-IsSized k = record { encodes = encode_fhandle-length; decodes = leaving-head _ }

  lookup-IsSized : (k : Kmalloc) → IsSized (lookup_procedure x s vfs e k) 12
  lookup-IsSized k = record { encodes = encode_fhandle-length; decodes = leaving-head _ }

  decode_readdirargs-head :
      (rqstp rqstp' : SvcRqst) (base : List ℕ) (args : Option ReaddirArgs)
      → vsnfssvc_decode_readdirargs x rqstp base ≡ done (args, rqstp')
      → rqstp'.head ≡ rqstp.head
  unfolding vsnfssvc_decode_readdirargs
  decode_readdirargs-head rqstp rqstp' base args h =
      let ((fh, p), _, h1) = >>=-eq-done (decode_fh base) _ h in
      let ((count, q), _, h2) = >>=-eq-done (get_be32 p) _ h1 in
      sym (ap (λ (r : Option ReaddirArgs × SvcRqst). r.1.head) (done-injective h2))

  decode_readargs-head :
      (rqstp rqstp' : SvcRqst) (base : List ℕ) (args : Option ReadArgs)
      → vsnfssvc_decode_readargs x rqstp base ≡ done (args, rqstp')
      → rqstp'.head ≡ rqstp.head
  unfolding vsnfssvc_decode_readargs
  decode_readargs-head rqstp rqstp' base args h =
      let ((fh, p), _, h1) = >>=-eq-done (decode_fh base) _ h in
      let ((offset, q), _, h2) = >>=-eq-done (get_be32 p) _ h1 in
      let ((len, r), _, h3) = >>=-eq-done (get_be32 q) _ h2 in
      sym (ap (λ (o : Option ReadArgs × SvcRqst). o.1.head) (done-injective h3))

  readdir-IsSized :
      (alloc : Bool) (stack : List ℕ) → IsSized (readdir_procedure x s vfs e alloc stack) 0
  unfolding vsnfssvc_encode_readdirres vsnfssvc_decode_readdirargs
  readdir-IsSized alloc stack = record {
    encodes = λ rqstp resp. omega arith;
    decodes = decode_readdirargs-head;
  }

  read-IsSized :
      (alloc : Bool) (position at : ℕ) → IsSized (read_procedure x s vfs e alloc position at) 4
  unfolding vsnfssvc_encode_readres vsnfssvc_decode_readargs
  read-IsSized alloc position at = record {
    encodes = λ rqstp resp.
        omega
          (arith, length-append rqstp.head (be32 (resp.1 % 2 ^ 32)), length-be32 (resp.1 % 2 ^ 32));
    decodes = decode_readargs-head;
  }

  module _ (env : Surroundings) (empty : env.rqstp.head ≡ []) where
    answer-reply :
        (proc : Proc) (sent : RpcRqst) (accept : Accept) (rqstp : SvcRqst) (head page : List ℕ)
        → answer x s vfs e env (leaves proc sent) accept rqstp ≡ reply head page
        → head ≡ rqstp.head
    answer-reply proc sent untouched rqstp head page h = cc
    answer-reply proc sent garbage_args rqstp head page h = cc
    answer-reply proc sent system_err rqstp head page h = cc

    through-length :
        {Args Resp : Type 0} (name : Proc) (proc : SvcProcedure Args Resp Table) (bytes words : ℕ)
        → IsSized proc bytes
        → 4 + bytes ≤ 4 * words
        → (table table' : Table) (sent : RpcRqst) (resp : Resp) (head page : List ℕ)
        → through x s vfs e env (leaves name sent) proc table sent resp
          ≡ done (reply head page, table')
        → length head ≤ 4 * words
    through-length name proc bytes words sized fits table table' sent resp head page ran =
        let (d, dispatched, last) =
          >>=-eq-done
            (vsnfsd_dispatch e proc (received env.rqstp sent) (sent.svec ++ env.stale) table resp) _
            ran in
        let is =
          answer-reply name sent d.statp d.rqstp head page
            (ap (λ (q : Answer × Table). q.0) (done-injective last)) in
        omega (
          arith,
          fits,
          ap length is,
          ap length empty,
          vsnfsd_dispatch-length e proc bytes sized (received env.rqstp sent)
              (sent.svec ++ env.stale) table resp d dispatched,
        )

    -- Words for a status, and for what the encoder of the procedure adds.
    abbrev words : Proc → ℕ
    words null = 2
    words getroot = 4
    words lookup = 4
    words readdir = 1
    words read = 2

    serve-length :
        (proc : Proc) (table table' : Table) (sent : RpcRqst) (head page : List ℕ)
        → serve_by x s vfs e env leaves table proc sent ≡ done (reply head page, table')
        → length head ≤ 4 * words proc
    unfolding serve_by
    serve-length null table table' sent head page ran =
        through-length null (null_procedure x s vfs e) 4 2 null-IsSized (omega arith) table table'
          sent 0 head page ran
    serve-length getroot table table' sent head page ran =
        through-length getroot (getroot_procedure x s vfs e env.alloc) 12 4
          (getroot-IsSized env.alloc) (omega arith) table table' sent env.resp head page ran
    serve-length lookup table table' sent head page ran =
        through-length lookup (lookup_procedure x s vfs e env.alloc) 12 4 (lookup-IsSized env.alloc)
          (omega arith) table table' sent env.resp head page ran
    serve-length readdir table table' sent head page ran =
        through-length readdir (readdir_procedure x s vfs e env.file_path env.stack) 0 1
          (readdir-IsSized env.file_path env.stack) (omega arith) table table' sent
          (start_res s vfs e 0) head page ran
    serve-length read table table' sent head page ran =
        through-length read (read_procedure x s vfs e env.file_path env.position env.head_at) 4 2
          (read-IsSized env.file_path env.position env.head_at) (omega arith) table table' sent
          ([], 0) head page ran

    -- The head of a reply that any procedure gets, whatever the request and the table are, has, as it
    -- leaves the server, at most `pc_xdrressize` words of the server's table and, but for NULL, at
    -- most `p_replen` words of the client's. It says nothing of the page of a READDIR or a READ, nor of
    -- the one word that the client receives in front of a READ's page.
    pub serve-pc_xdrressize :
        (proc : Proc) (table table' : Table) (sent : RpcRqst) (head page : List ℕ)
        → serve_by x s vfs e env leaves table proc sent ≡ done (reply head page, table')
        → (length head ≤ 4 * pc_xdrressize proc) × ((proc ≡ null) ⊎ (length head ≤ 4 * replen proc))
    serve-pc_xdrressize null table table' sent head page ran =
        (serve-length null table table' sent head page ran, inl refl)
    serve-pc_xdrressize getroot table table' sent head page ran =
        let short = serve-length getroot table table' sent head page ran in
        (omega (arith, short), inr (omega (arith, short)))
    serve-pc_xdrressize lookup table table' sent head page ran =
        let short = serve-length lookup table table' sent head page ran in
        (omega (arith, short), inr (omega (arith, short)))
    serve-pc_xdrressize readdir table table' sent head page ran =
        let short = serve-length readdir table table' sent head page ran in (short, inr short)
    serve-pc_xdrressize read table table' sent head page ran =
        let short = serve-length read table table' sent head page ran in
        (omega (arith, short), inr (omega (arith, short)))
