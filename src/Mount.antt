-- ===== src/Mount.antt =====
-- vsnfsMount.c: the mount's device name and options. The device name is a C string without its NUL.
-- What `in4_pton`, `strsep`, `match_token` and `simple_strtol` make of texts are parameters.
use vsnfs.Base.{
  ℕ, ◌+◌, ◌%◌, ◌^◌, List, [], ◌∷◌, Option, none, some, Bool, true, false, ◌==◌, ltb, leb,
  if◌then◌else◌, ℤ, pos, neg, eqb, is_neg, Run, done, oops, out_of_bounds, need, ◌>>=◌, ◌>>◌,
  length,
}
use vsnfs.Protocol.{VsnfsFh, VsnfsStat, code, maxnamlen, maxpathlen}
use vsnfs.Server.{word_of_int}
use vsnfs.Errno.Constants
pub mod Parse

-- The fields of a `struct vsnfs_server` that the mount's data set; `sin_port` is that of `cl_addr`,
-- as the number that its bytes spell in network order, and `cl_rpcclient` is whether there is one.
pub record VsnfsServer : Type 0 where
  pub timeout : ℤ
  pub ip_addr : List ℕ
  pub server_port : ℤ
  pub sin_port : ℕ
  pub mnt_path : Option (List ℕ)
  pub cl_rpcclient : Bool
  pub root_fh : VsnfsFh

-- What `match_token` makes of an option, with the number that its text has.
pub data Token : Type 0 where
  opt_port opt_timeout : ℤ → Token
  opt_err : Token

-- VSNFS_PORT and VSNFS_TIMEOUT
abbrev pub default_port : ℕ
default_port = 6789

abbrev pub default_timeout : ℕ
default_timeout = 600

-- The bytes of `ip_addr`.
abbrev pub ip_room : ℕ
ip_room = 16

-- `htons` of an `int`, whose low 16 bits are taken.
abbrev pub port_bits : ℤ → ℕ
port_bits z = word_of_int z % 2 ^ 16

-- `strchr(dev_name, ':')`: the text before the first colon, and that behind it.
unfoldable pub split_colon : List ℕ → Option (List ℕ × List ℕ)
split_colon [] = none
split_colon (c ∷ cs) =
    let rest = split_colon cs in
    if c == b':'
    then some ([], cs)
    else elim rest [ none ↦ none | some (addr, path) ↦ some (c ∷ addr, path) ]

-- `alloc` is whether `kstrndup` returns memory. Nothing tests that the address fits `ip_addr`.
unfoldable pub vsnfs_parse_mntpath : (alloc : Bool) → List ℕ → VsnfsServer → Run (ℤ × VsnfsServer)
unfolding split_colon
vsnfs_parse_mntpath alloc dev_name server = elim (split_colon dev_name) [
  | none ↦ done (neg (code VsnfsStat.inval), server)
  | some (addr, path) ↦
      if ltb maxnamlen (length addr) then done (neg (code VsnfsStat.nametoolong), server) else (do
        need (leb (length addr + 1) ip_room) out_of_bounds
        let named : VsnfsServer = record server { ip_addr = addr }
        done (
            if ltb maxpathlen (length path)
            then (neg (code VsnfsStat.nametoolong), named)
            else if alloc
            then (pos 0, record named { mnt_path = some path })
            else (neg Constants.enomem, named)))
]

-- `vsnfs_inet_pton` from what `in4_pton` returns: a positive value becomes 1.
abbrev pub vsnfs_inet_pton : ℤ → ℤ
vsnfs_inet_pton ret = if is_neg ret then ret else if eqb ret (pos 0) then pos 0 else pos 1

abbrev pub apply_token : Token → VsnfsServer → VsnfsServer
apply_token (opt_port n) server = record server { server_port = n; sin_port = port_bits n }
apply_token (opt_timeout n) server = record server { timeout = n }
apply_token opt_err server = server

-- The loop over the options between commas; an empty one is passed over.
unfoldable pub parse_options :
    (match_token : List ℕ → Token) → List (List ℕ) → VsnfsServer → VsnfsServer
parse_options match_token [] server = server
parse_options match_token ([] ∷ ps) server = parse_options match_token ps server
parse_options match_token ((c ∷ cs) ∷ ps) server =
    parse_options match_token ps (apply_token (match_token (c ∷ cs)) server)

-- The value is that of `vsnfs_inet_pton` where the device name was parsed.
unfoldable pub vsnfs_parse_mount_options :
    (alloc : Bool)
    → (in4_pton : List ℕ → ℤ) → (match_token : List ℕ → Token) → List (List ℕ)
    → List ℕ
    → VsnfsServer
    → Run (ℤ × VsnfsServer)
unfolding vsnfs_parse_mntpath parse_options
vsnfs_parse_mount_options alloc in4_pton match_token options dev_name server = do
  let start : VsnfsServer = record server {
    server_port = pos default_port;
    timeout = pos default_timeout;
  }
  (rc, parsed) ← vsnfs_parse_mntpath alloc dev_name start
  let addressed : VsnfsServer = record parsed { sin_port = default_port }
  let address = vsnfs_inet_pton (in4_pton parsed.ip_addr)
  done (
      if eqb rc (pos 0)
      then (
        address,
        if is_neg address then addressed else parse_options match_token options addressed,
      )
      else (rc, parsed))
