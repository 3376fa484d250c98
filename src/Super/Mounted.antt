-- ===== src/Super/Mounted.antt =====
-- A mount that nothing refuses: `vsnfs_get_sb` (vsnfsClient.c) over `vsnfs_proc_getroot`
-- (vsnfsProc.c) with the server's dispatch and procedure behind it.
use vsnfs.Base.{
  ℕ, ◌^◌, ◌<◌, ◌≤◌, ◌≡◌, ◌∙◌, ◌≢◌, refl, List, [], ◌∷◌, ◌++◌, some, true, false, ltb_of_le, is_neg,
  ℤ, pos, Endian, done, length, arith,
}
use vsnfs.Protocol.{VsnfsFh, maxpathlen}
use vsnfs.Kernel.{Sunrpc, Strtoul}
use vsnfs.Vfs.{Vfs, Inode, other}
use vsnfs.ServerXdr.{ReaddirRes, has_nul}
use vsnfs.Server.{Table, Reply}
use vsnfs.Server.Lookup.{fh_for}
use vsnfs.Server.Getroot.{vsnfsd_proc_getroot}
use vsnfs.Rpc.{vsnfs_proc_getroot}
use vsnfs.Rpc.Serve.{Surroundings, serve}
use vsnfs.Rpc.Handles.{vsnfs_proc_getroot-serve}
use vsnfs.Client.{ClientInode, vsnfs_fhget}
use vsnfs.Client.Lookup.{mirror, fh_for-IsFh, vsnfs_fhget-fh_for}
use vsnfs.Mount.{
  VsnfsServer, Token, default_port, default_timeout, vsnfs_inet_pton, parse_options,
  vsnfs_parse_mount_options,
}
use vsnfs.Mount.Parse.{has_colon, vsnfs_parse_mntpath-append, parse_options-port}
use vsnfs.Super.{
  client_sops, MountEnv, RootCall, Superblock, mounted, root, new_super, vsnfs_fill_super,
  vsnfs_create_rpcclient, vsnfs_get_root, vsnfs_mount_root, vsnfs_get_sb,
}

vsnfs_inet_pton_lem : (z : ℤ) → is_neg z ≡ false → is_neg (vsnfs_inet_pton z) ≡ false
vsnfs_inet_pton_lem z h = ground (arith, h)

-- A device name that fits, and an address that the kernel reads.
parse_device :
    (in4_pton : List ℕ → ℤ) (match_token : List ℕ → Token) (options : List (List ℕ))
    (addr path : List ℕ) (server : VsnfsServer)
    → has_colon addr ≡ false
    → length addr ≤ 15
    → length path ≤ maxpathlen
    → is_neg (in4_pton addr) ≡ false
    → (ret : ℤ) × (out : VsnfsServer) × (vsnfs_parse_mount_options true in4_pton match_token options
          (addr ++ b':' ∷ path)
          server
        ≡ done (ret, out))
      × (is_neg ret ≡ false)
      × (out.ip_addr ≡ addr)
      × (out.mnt_path ≡ some path)
unfolding vsnfs_parse_mount_options
parse_device in4_pton match_token options addr path server plain short fits known =
    let start : VsnfsServer = record server {
      server_port = pos default_port;
      timeout = pos default_timeout;
    } in
    let addressed : VsnfsServer = record start {
      ip_addr = addr;
      mnt_path = some path;
      sin_port = default_port;
    } in
    let good = vsnfs_inet_pton_lem (in4_pton addr) known in
    let (last, same, addr', path') = parse_options-port match_token options addressed refl in
    (
      vsnfs_inet_pton (in4_pton addr),
      parse_options match_token options addressed,
      rw
          (
            vsnfs_parse_mntpath-append addr path start plain (omega (arith, short)) fits,
            ltb_of_le 15 (length addr) short,
            good,
          )
          refl,
      good,
      addr',
      path',
    )

-- The server's record with the connection and the root's handle.
abbrev pub connected : VsnfsServer → VsnfsFh → VsnfsServer
connected server fh = record server { cl_rpcclient = true; root_fh = fh }

create_rpcclient_ok :
    {State : Type 0} (getroot : RootCall State) (state state' : State) (env : MountEnv)
    (server : VsnfsServer) (path : List ℕ) (fh : VsnfsFh)
    → server.mnt_path ≡ some path
    → is_neg env.rpc_create ≡ false
    → env.kmalloc ≡ true
    → getroot state (record { path = path; len = length path }) env.fh ≡ done ((pos 0, fh), state')
    → vsnfs_create_rpcclient getroot state env server ≡ done ((pos 0, connected server fh), state')
unfolding vsnfs_create_rpcclient
create_rpcclient_ok getroot state state' env server path fh has client memory called =
    rw (has, client, memory, called) refl

-- The superblock of a mounted file system.
abbrev pub active_super : VsnfsServer → Superblock
active_super server = record {
  s_blocksize_bits = 12;
  s_blocksize = 4096;
  s_magic = 0x7979;
  s_op = client_sops;
  s_fs_info = server;
  s_root = true;
  active = true;
}

get_root_ok :
    (s : Strtoul) (e : Endian) (env : MountEnv) (sb : Superblock) (fh : VsnfsFh)
    (inode : ClientInode)
    → sb.s_root ≡ false
    → vsnfs_fhget s e env.iget fh ≡ some inode
    → env.d_alloc_root ≡ true
    → is_neg env.d_obtain_alias ≡ false
    → vsnfs_get_root s e env sb fh ≡ (root inode, record sb { s_root = true })
unfolding vsnfs_get_root
get_root_ok s e env sb fh inode fresh found memory alias =
    ground (arith, fresh, found, memory, alias)

pub mount_root_ok :
    (s : Strtoul) (e : Endian) (env : MountEnv) (server : VsnfsServer) (inode : ClientInode)
    → is_neg env.sget ≡ false
    → vsnfs_fhget s e env.iget server.root_fh ≡ some inode
    → env.d_alloc_root ≡ true
    → is_neg env.d_obtain_alias ≡ false
    → vsnfs_mount_root s e env server ≡ done (mounted (active_super server) inode)
unfolding vsnfs_mount_root
mount_root_ok s e env server inode super found memory alias =
    rw
      (
        super,
        get_root_ok s e env (vsnfs_fill_super (new_super server)) server.root_fh inode refl found
            memory alias,
      )
      refl

module _ {File : Type 0} (x : Sunrpc) (s : Strtoul) (vfs : Vfs File ReaddirRes) (e : Endian)
    (around : Surroundings) (empty : around.rqstp.head ≡ []) (eight : length around.resp.handle ≡ 8)
    (table : Table) (env : MountEnv) (blank : VsnfsServer) (options : List (List ℕ)) where
  -- A mount through the RPC layer, where the kernel refuses nothing, of a device name "address:path"
  -- whose address has at most 15 bytes and no colon, and whose path has at most VSNFS_MAXPATHLEN
  -- bytes and no NUL: if the server's GETROOT returns status 0 for the path, with the handle that it
  -- makes for a file or directory whose number has at most seven digits, and the client's cache gives
  -- a new inode for that number, then the mount returns an active superblock of VSNFS, whose server
  -- has the address, the path and the root's handle, and a root inode of the same number and kind,
  -- and the server keeps GETROOT's table.
  pub vsnfs_get_sb-rpc :
      (addr path : List ℕ) (inode : Inode) (old : ClientInode) (r : Reply)
      → (env.kzalloc ≡ true)
        × (env.kstrndup ≡ true)
        × (env.kmalloc ≡ true)
        × (env.d_alloc_root ≡ true)
      → (is_neg (env.in4_pton addr) ≡ false)
        × (is_neg env.rpc_create ≡ false)
        × (is_neg env.sget ≡ false)
        × (is_neg env.d_obtain_alias ≡ false)
      → has_colon addr ≡ false
      → length addr ≤ 15
      → length path ≤ maxpathlen
      → has_nul path ≡ false
      → vsnfsd_proc_getroot vfs e around.alloc table
          (record { path = path; len = length path })
          around.resp
        ≡ done r
      → r.status ≡ 0
      → r.resp ≡ fh_for around.resp inode
      → inode.i_ino < 10 ^ 7
      → inode.kind ≢ other
      → env.iget inode.i_ino ≡ some old
      → old.is_new ≡ true
      → (server : VsnfsServer) × (server.ip_addr ≡ addr)
        × (server.mnt_path ≡ some path)
        × (server.root_fh ≡ fh_for around.resp inode)
        × (vsnfs_get_sb s e env
              (vsnfs_proc_getroot x (serve x s vfs e around))
              table
              blank
              (addr ++ b':' ∷ path)
              options
            ≡ done (
              mounted (active_super server) (mirror (fh_for around.resp inode) inode old),
              r.table,
            ))
  unfolding vsnfs_get_sb
  vsnfs_get_sb-rpc addr path inode old r (zeroed, dup, memory, dentry) (known, client, super, alias)
        plain short fits clean ran zero same small kind found new =
      let (ret, out, parsed, good, addr', path') =
        parse_device env.in4_pton env.match_token options addr path blank plain short fits known in
      let called : vsnfs_proc_getroot x (serve x s vfs e around) table
            (record { path = path; len = length path }) env.fh
          ≡ done ((pos 0, fh_for around.resp inode), r.table) =
        vsnfs_proc_getroot-serve x s vfs e around empty table r (rw zero (omega arith))
          (rw same (fh_for-IsFh around.resp inode eight kind)) env.fh path fits clean ran
        ∙ rw (zero, same) refl in
      let server = connected out (fh_for around.resp inode) in
      (
        server,
        addr',
        path',
        refl,
        rw
            (
              zeroed,
              dup,
              parsed,
              good,
              create_rpcclient_ok (vsnfs_proc_getroot x (serve x s vfs e around)) table r.table env
                  out path (fh_for around.resp inode) path' client memory called,
              mount_root_ok s e env server (mirror (fh_for around.resp inode) inode old) super
                  (vsnfs_fhget-fh_for s e env.iget around.resp inode old small kind found new)
                  dentry alias,
            )
            refl,
      )
