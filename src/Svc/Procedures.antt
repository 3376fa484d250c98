-- ===== src/Svc/Procedures.antt =====
-- The entries of `vsnfsd_procedures1` (server/vsnfsproc.c).
use vsnfs.Base.{ℕ, ◌%◌, ◌^◌, List, Option, Bool, true, Endian, Run, done, ◌>>=◌}
use vsnfs.Protocol.{VsnfsFh}
use vsnfs.Kernel.{Sunrpc, Strtoul}
use vsnfs.Vfs.{Vfs}
use vsnfs.ServerXdr.{
  SvcRqst, GetrootArgs, LookupArgs, ReaddirArgs, ReadArgs, ReaddirRes, vsnfssvc_decode_readdirargs,
  vsnfssvc_decode_readargs, vsnfssvc_encode_readdirres, vsnfssvc_encode_readres,
  vsnfssvc_decode_nullargs, vsnfssvc_decode_getrootargs, vsnfssvc_decode_lookupargs,
  vsnfssvc_encode_nullres, vsnfssvc_encode_fhandle,
}
use vsnfs.Server.{Table, Kmalloc, Reply, vsnfsd_proc_null}
use vsnfs.Server.Lookup.{vsnfsd_proc_lookup}
use vsnfs.Server.Getroot.{vsnfsd_proc_getroot}
use vsnfs.Server.Files.{vsnfsd_proc_readdir, vsnfsd_proc_read}
use vsnfs.Svc.{SvcProcedure}

-- A decoder that leaves the request alone, and the parts of a procedure's reply.
abbrev pub leaving :
    {A : Type 0} → (SvcRqst → List ℕ → Run (Option A)) → SvcRqst → List ℕ → Run (Option A × SvcRqst)
leaving decode rqstp base = do args ← decode rqstp base; done (args, rqstp)

abbrev pub parts : Run Reply → Run (Table × ℕ × VsnfsFh)
parts run = do r ← run; done (r.table, r.status, r.resp)

module _ {File State : Type 0} (x : Sunrpc) (s : Strtoul) (vfs : Vfs File State) (e : Endian) where
  abbrev pub null_procedure : SvcProcedure ℕ ℕ Table
  null_procedure = record {
    pc_decode = leaving (vsnfssvc_decode_nullargs x);
    pc_func =
        λ table dummy _. done (table, (vsnfsd_proc_null e dummy).0, (vsnfsd_proc_null e dummy).1);
    pc_encode = vsnfssvc_encode_nullres x;
  }

  abbrev pub getroot_procedure : Kmalloc → SvcProcedure GetrootArgs VsnfsFh Table
  getroot_procedure k = record {
    pc_decode = leaving (vsnfssvc_decode_getrootargs x);
    pc_func = λ table args resp. parts (vsnfsd_proc_getroot vfs e k table args resp);
    pc_encode = vsnfssvc_encode_fhandle x;
  }

  abbrev pub lookup_procedure : Kmalloc → SvcProcedure LookupArgs VsnfsFh Table
  lookup_procedure k = record {
    pc_decode = leaving (vsnfssvc_decode_lookupargs x);
    pc_func = λ table args resp. parts (vsnfsd_proc_lookup s vfs e k table args resp);
    pc_encode = vsnfssvc_encode_fhandle x;
  }

module _ {File : Type 0} (x : Sunrpc) (s : Strtoul) (vfs : Vfs File ReaddirRes) (e : Endian)
    (alloc : Bool) where
  -- `stack` is what the array of a local handle holds before. The page is written through
  -- `argp->buffer`, and its encoder always answers 1.
  abbrev pub readdir_procedure : (stack : List ℕ) → SvcProcedure ReaddirArgs ReaddirRes Table
  readdir_procedure stack = record {
    pc_decode = vsnfssvc_decode_readdirargs x;
    pc_func = λ table args _. do
      (status, res) ← vsnfsd_proc_readdir s vfs e x stack alloc table args
      done (table, status, res);
    pc_encode = λ rqstp res.
        let (encoded, page) = vsnfssvc_encode_readdirres rqstp res in
        (true, record encoded { page = page });
  }

  -- The response is the count, with the bytes that stand in the page. `position` is what a local
  -- variable holds before, and `at` where the reply's status stands in its page.
  abbrev pub read_procedure : (position at : ℕ) → SvcProcedure ReadArgs (List ℕ × ℕ) Table
  read_procedure position at = record {
    pc_decode = vsnfssvc_decode_readargs x;
    pc_func = λ table args _. do
      (status, bytes, count) ← vsnfsd_proc_read s vfs e alloc position table args
      done (table, status, (bytes, count));
    pc_encode = λ rqstp res.
        let (fits, encoded) = vsnfssvc_encode_readres x rqstp at (res.1 % 2 ^ 32) in
        (fits, record encoded { page = res.0 });
  }
