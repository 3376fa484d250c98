-- ===== src/Lib.antt =====
-- VSNFS, a very simple network file system for the Linux kernel: a client module, a server module
-- and the XDR routines by which they talk over sunrpc.
--
-- The parts and their files:
--   vsnfs.h, server/vsnfsd.h: the limits, the status codes, the file handle -- Protocol. The
--     statuses read back from a reply -- Protocol.Codes.
--   vsnfsXdr.c (vsnfs_stat_to_errno) and server/vsnfsproc.c (vsnfserrno): the two tables of
--     errnos, and an errno on its way from the server to the client -- Errno, Errno.Wire.
--   The text of an inode number in a handle (snprintf in server/vsnfsproc.c and
--     server/vsnfsxdr.c) -- Handle, Handle.Decimal, and of one that does not fit -- Handle.Cut.
--   vsnfsXdr.c: the client's encoders and decoders -- ClientXdr.
--   server/vsnfsxdr.c: the server's decoders and encoders -- ServerXdr. The arguments of each
--     call from the one to the other, and their sizes -- Wire.
--   server/vsnfsproc.c and server/vfs.c: the procedures over the lookup table from inode numbers
--     to paths -- Server, with Lookup, Getroot and Files for the procedures, Texts for its paths,
--     Table and Reach for what holds of the table, Resolve for what a handle stands for, Open for
--     how it is opened, Spec, Refine and Simulate for the table as a map from inode numbers to
--     paths, Honest for what these paths name, and Crash for when a LOOKUP or a GETROOT stops the
--     server.
--   vsnfsDir.c: reading a directory on the client -- Dir. The whole readdir, from the server's
--     filler to the client's `filldir` -- Readdir; the loop against a reader that parses first --
--     Readdir.Reference.
--   vsnfsProc.c: the client's calls over the RPC layer -- Rpc; the record through which its other
--     files make them -- Rpc.Ops. The server behind that layer, which is the dispatch with the
--     procedure table -- Rpc.Serve. Whole calls through it -- Rpc.Readdir, Rpc.Read, Rpc.Handles,
--     Rpc.Refused; those that fail in the server's file system -- Rpc.Faults. Lookups of one name
--     after the other, and what a client does at their end -- Rpc.Walk, Rpc.Arrive; a handle that
--     is cut -- Rpc.Truncated. What any calls leave of the table -- Rpc.Reach, Rpc.Session; what
--     clients can tell of two tables -- Server.Same, Rpc.Same, Rpc.Meaning; a call that arrives
--     twice -- Server.Again, Rpc.Again; a mount while another client has handles -- Rpc.Remount.
--     The size of a reply -- Rpc.Sizes.
--   The RPC programs with their versions and procedure numbers (vsnfsClient.c, vsnfsXdr.c,
--     server/vsnfssvc.c, server/vsnfsproc.c) -- Rpc.Programs.
--   vsnfsClient.c (vsnfs_fhget), vsnfsDir.c (vsnfs_lookup, vsnfs_do_lookup): the client's inodes
--     and its lookup of a name -- Client, Client.Lookup.
--   vsnfsMount.c: the device name and the options of a mount -- Mount, Mount.Parse.
--   vsnfsClient.c (vsnfs_create_rpcclient, vsnfs_get_sb and what they call): a mount, from the
--     RPC client to the root's inode -- Super, with Mounted for a mount that nothing refuses,
--     Walk for a lookup behind it, Path for one lookup after the other by `vsnfs_lookup`, Story
--     for a listing at their end, Missing for a name that does not exist, and Branches for what
--     the errors leave.
--   The callbacks that return a constant, and the registration of the file system -- Callbacks.
--     The tables of operations that hold them, and which of them an inode has --
--     Callbacks.Tables.
--   server/vsnfssvc.c: the dispatch of a request, the service thread, start and end -- Svc. Whole
--     calls through the dispatch -- Svc.Calls, Svc.Null. The size of what it answers --
--     Svc.Sizes. The references to lockd and the frees at the end -- Svc.Lockd. The memory for
--     the arguments and results of a request (server/xdr.h, server/vsnfsproc.c) -- Svc.Layout.
--   Tests has instances of the parameters and the theorems at concrete inputs.
--
-- A client's call is encoded by ClientXdr, arrives at `vsnfsd_dispatch` (Svc), which decodes by
-- ServerXdr, runs a procedure of Server on the lookup table, puts the status and the encoded
-- result into the reply, and the client decodes by ClientXdr, with the errno of the status.
--
-- How the code is modelled. A buffer is a list of bytes, and a pointer into it is the rest of the
-- list. `Run` (Base.Runs) is a result or a fault: the use of a null pointer or an address outside
-- of the buffer. A function that changes a structure takes its fields and gives them back. The
-- lookup table is a list of nodes, newest first, and none before `getroot` makes its head. What
-- `kmalloc` and `alloc_page` return is an argument. A `__be32` on the host is the number that its
-- bytes spell on a little or big endian host (Endian), and a word keeps its wrap-around. `long`
-- has 64 bits, but for Svc.Layout, which has both sizes. The page that an encoder fills begins at
-- a multiple of the page size.
--
-- Kernel has what the code takes from the kernel as parameters with their documented behaviour:
-- the XDR helpers of sunrpc (Sunrpc) and simple_strtoul (Strtoul). Vfs has the file system below
-- the server: path_lookup, filp_open, filp_close, vfs_readdir and vfs_read.
--
-- Fuel: `do_filldir_loop` (Dir) has one round more than the page has bytes. Each round reads a
-- word at least, so the loop ends by its own tests or by a fault before. `decimal` (Handle) has
-- 20 rounds, for the 20 digits of a number below 2 ^ 64.
--
-- The RPC layer's `rpc_call_sync` is `Call` (Rpc): it takes what an encoder wrote and the
-- server's state, and gives the reply or the errno of the layer. What the kernel answers in a
-- mount is `MountEnv` (Super), and what surrounds the server in a call is `Surroundings`
-- (Rpc.Serve). The reply of a READ goes from the one to the other as a stream of bytes (`stream`
-- and `split` in Rpc.Serve): the head and `page_len` bytes of the page, of which the client keeps
-- in its head what it gave `xdr_inline_pages` room for, and takes the next ones as its page. The
-- reply's RPC header is taken to fill the room left for it, and bytes behind the page's are not
-- told from the memory behind the head. The other replies arrive as the head and the page that
-- the server filled.
--
-- Not modelled: server/test, which rpcgen generates; traces; reference counts of dentries and
-- inodes, but for the puts of `vsnfs_fhget`; the frees of memory, but for the server's record,
-- whose loss after a failed mount and whose end are in Super, and the lookup table at the end of
-- the service, which is in Svc; the moments at which the one thread of the service (VSNFS_NRSERVS
-- is 1) is interrupted: requests are served one after the other; `s_id` and `s_maxbytes` of a
-- superblock; the accessors of vsnfs.h that only name a field.
pub mod Base
pub mod Protocol
pub mod Errno
pub mod Kernel
pub mod Handle
pub mod ClientXdr
pub mod ServerXdr
pub mod Wire
pub mod Vfs
pub mod Server
pub mod Dir
pub mod Readdir
pub mod Svc
pub mod Rpc
pub mod Client
pub mod Mount
pub mod Super
pub mod Callbacks
pub mod Tests
