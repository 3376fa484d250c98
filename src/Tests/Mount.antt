-- ===== src/Tests/Mount.antt =====
-- The mount's device name and options: Mount.Parse.
use vsnfs.Base.{ℕ, ◌≡◌, refl, List, [], ◌∷◌, ◌++◌, none, some, true, false, pos, done}
use vsnfs.Mount.{VsnfsServer, Token, opt_port, vsnfs_parse_mount_options}
use vsnfs.Mount.Parse.{IsDevice, vsnfs_parse_mount_options-port}
use vsnfs.Tests.Instances.{root_path, some_fh}

abbrev pub blank_server : VsnfsServer
blank_server = record {
  timeout = pos 0;
  ip_addr = [];
  server_port = pos 0;
  sin_port = 0;
  mnt_path = none;
  cl_rpcclient = false;
  root_fh = some_fh;
}

abbrev pub short_name : List ℕ
short_name = b'h' ∷ []

-- The options "p" and, behind an empty one, "q"; each is a port.
abbrev options : List (List ℕ)
options = (b'p' ∷ []) ∷ [] ∷ (b'q' ∷ []) ∷ []

abbrev match_port : List ℕ → Token
match_port [] = opt_port (pos 0)
match_port (c ∷ cs) = opt_port (pos c)

abbrev mounted : VsnfsServer
mounted = record {
  timeout = pos 600;
  ip_addr = short_name;
  server_port = pos b'q';
  sin_port = b'q';
  mnt_path = some root_path;
  cl_rpcclient = false;
  root_fh = some_fh;
}

mounted_lem :
    vsnfs_parse_mount_options true
      (λ text. pos 1)
      match_port
      options
      (short_name ++ b':' ∷ root_path)
      blank_server
    ≡ done (pos 1, mounted)
unfolding vsnfs_parse_mount_options
mounted_lem = refl

vsnfs_parse_mount_options-port_example :
    (path : List ℕ) × (some root_path ≡ some path)
    × IsDevice (short_name ++ b':' ∷ root_path) short_name path
    × (mounted.server_port ≡ pos 113)
    × (mounted.sin_port ≡ 113)
vsnfs_parse_mount_options-port_example =
    vsnfs_parse_mount_options-port true (λ text. pos 1) match_port options
      (short_name ++ b':' ∷ root_path) blank_server (pos 1) mounted mounted_lem refl
