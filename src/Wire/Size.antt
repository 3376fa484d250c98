-- ===== src/Wire/Size.antt =====
-- The encoded arguments within the buffers that the client's RPC layer makes for them: the sizes
-- `p_arglen` of the procedure table in vsnfsXdr.c.
use vsnfs.Base.{ℕ, ◌*◌, ◌≤◌, List, [], ◌++◌, length, length-append, be32, length-be32, arith}
use vsnfs.Protocol.{VsnfsFh, IsFh, maxnamlen, maxpathlen}
use vsnfs.Kernel.{Sunrpc}
use vsnfs.ClientXdr.{
  vsnfs_xdr_nullargs, vsnfs_xdr_getrootargs, vsnfs_xdr_lookupargs, vsnfs_xdr_readdirargs,
  vsnfs_xdr_readargs, null, getroot, lookup, readdir, read, arglen,
}
use vsnfs.Wire.Args.{blank}
use vsnfs.Wire.Bounds.{fh_bytes, length-fh_bytes, xdr_encode_fhandle_lem, length-encode_array}

module _ (x : Sunrpc) where
  open x use {quadlen_lem, encode_array, adjust_iovec_lem}

  -- What each of the client's encoders writes takes at most the words that the procedure table
  -- gives it, for a well-formed handle, a path of at most VSNFS_MAXPATHLEN bytes and a name of at
  -- most VSNFS_MAXNAMLEN bytes.
  pub length-le-arglen :
      (fh : VsnfsFh) (path name : List ℕ) (dummy rslack count offset len : ℕ)
      → IsFh fh
      → length path ≤ maxpathlen
      → length name ≤ maxnamlen
      → ((vsnfs_xdr_nullargs x blank dummy).slen ≤ 4 * arglen null)
        × ((vsnfs_xdr_getrootargs x blank (record { path = path; len = length path })).slen
            ≤ 4 * arglen getroot)
        × ((vsnfs_xdr_lookupargs x blank
              (record { fh = fh; filename = name; len = length name })).slen
            ≤ 4 * arglen lookup)
        × ((vsnfs_xdr_readdirargs x blank rslack (record { fh = fh; count = count })).slen
            ≤ 4 * arglen readdir)
        × ((vsnfs_xdr_readargs x blank rslack
              (record { fh = fh; offset = offset; length = len })).slen
            ≤ 4 * arglen read)
  unfolding vsnfs_xdr_nullargs vsnfs_xdr_getrootargs vsnfs_xdr_lookupargs vsnfs_xdr_readdirargs
      vsnfs_xdr_readargs
  length-le-arglen fh path name dummy rslack count offset len hf hp hn = (
    rw adjust_iovec_lem (omega (arith, length-be32 dummy)),
    rw adjust_iovec_lem (omega (arith, length-encode_array x path, quadlen_lem (length path))),
    rw (adjust_iovec_lem, xdr_encode_fhandle_lem [] fh hf)
        (omega (
          arith,
          length-encode_array x name,
          quadlen_lem (length name),
          length-append (fh_bytes fh) (encode_array name (length name)),
          length-fh_bytes fh hf,
        )),
    rw (adjust_iovec_lem, xdr_encode_fhandle_lem [] fh hf)
        (omega (
          arith,
          length-append (fh_bytes fh) (be32 count),
          length-be32 count,
          length-fh_bytes fh hf,
        )),
    rw (adjust_iovec_lem, xdr_encode_fhandle_lem [] fh hf)
        (omega (
          arith,
          length-append (fh_bytes fh) (be32 offset ++ be32 len),
          length-append (be32 offset) (be32 len),
          length-be32 offset,
          length-be32 len,
          length-fh_bytes fh hf,
        )),
  )
