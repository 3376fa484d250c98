-- ===== src/Rpc/Ops.antt =====
-- `struct vsnfs_rpc_ops` (vsnfsXdr.h), through which the client's files call the server, and the
-- client's own (vsnfsProc.c).
use vsnfs.Base.{ℕ, List, ℤ, Run}
use vsnfs.Protocol.{VsnfsFh}
use vsnfs.Kernel.{Sunrpc}
use vsnfs.ClientXdr.{GetrootArgs, LookupArgs, VsnfsEntry, Ptr, vsnfs_decode_dirent}
use vsnfs.Rpc.{
  Call, vsnfs_proc_null, vsnfs_proc_getroot, vsnfs_proc_lookup, vsnfs_proc_readdir, vsnfs_proc_read,
}
use vsnfs.Rpc.Programs.{version}

-- The operations over a server's state. The tables of the dentries' and inodes' operations are in
-- Callbacks.Tables. The numbers before a handle are what the RPC layer adds: the room for the
-- credentials, and for a read the reply's distance from the send vector.
pub record VsnfsRpcOps (State : Type 0) : Type 0 where
  pub version : ℕ
  pub nullproc : State → (input output : ℕ) → Run ((ℤ × ℕ) × State)
  pub getroot : State → GetrootArgs → VsnfsFh → Run ((ℤ × VsnfsFh) × State)
  pub lookup : State → LookupArgs → VsnfsFh → Run ((ℤ × VsnfsFh) × State)
  pub readdir :
      State → (rslack : ℕ) → VsnfsFh → (page : List ℕ) → (count : ℕ) → Run ((ℤ × List ℕ) × State)
  pub read :
      State
      → (rslack base : ℕ) → VsnfsFh
      → (page : List ℕ) → (offset count held : ℕ) → Run ((ℤ × List ℕ × ℕ) × State)
  pub decode_dirent : List ℕ → VsnfsEntry → Run (Ptr × VsnfsEntry)

abbrev pub vsnfs_clientops : {State : Type 0} → Sunrpc → Call State → VsnfsRpcOps State
vsnfs_clientops x call = record {
  version = version;
  nullproc = vsnfs_proc_null x call;
  getroot = vsnfs_proc_getroot x call;
  lookup = vsnfs_proc_lookup x call;
  readdir = vsnfs_proc_readdir x call;
  read = vsnfs_proc_read x call;
  decode_dirent = vsnfs_decode_dirent x;
}
