-- ===== src/Mount/Parse.antt =====
-- What a mount takes from its device name and its options: vsnfsMount.c.
use vsnfs.Base.{
  ℕ, ◌≤◌, ◌≡◌, refl, sym, ◌∙◌, ap, subst, List, [], ◌∷◌, ◌++◌, Option, none, some, Bool, true,
  false, ◌==◌, ltb, if◌then◌else◌, ℤ, pos, is_neg, done, oops, out_of_bounds, >>=-eq-done, length,
  arith, inl, inr, Option-cases, Bool-cases,
}
use vsnfs.Protocol.{maxnamlen, maxpathlen}
use vsnfs.Mount.{
  VsnfsServer, Token, opt_port, opt_timeout, opt_err, default_port, default_timeout, port_bits,
  split_colon, vsnfs_parse_mntpath, apply_token, parse_options, vsnfs_parse_mount_options,
}

abbrev pub has_colon : List ℕ → Bool
has_colon [] = false
has_colon (c ∷ cs) = if c == b':' then true else has_colon cs

split_colon-append :
    (addr path : List ℕ)
    → has_colon addr ≡ false
    → split_colon (addr ++ b':' ∷ path) ≡ some (addr, path)
unfolding split_colon
split_colon-append [] path h = refl
split_colon-append (c ∷ cs) path h = ground (arith, split_colon-append cs path)

split_colon-eq-some :
    (dev addr path : List ℕ)
    → split_colon dev ≡ some (addr, path)
    → (dev ≡ addr ++ b':' ∷ path) × (has_colon addr ≡ false)
unfolding split_colon
split_colon-eq-some [] addr path h = cc
split_colon-eq-some (c ∷ cs) addr path h = elim (Option-cases (split_colon cs)) [
  | inl new ↦ ground (arith, new)
  | inr ((addr', path'), old) ↦ ground (arith, old, split_colon-eq-some cs addr' path' old)
]

-- "address:path", for an address without a colon and both within the limits that are tested: it is
-- taken apart as written if the address has at most 15 bytes, and else it is written past the end
-- of its buffer.
pub vsnfs_parse_mntpath-append :
    (addr path : List ℕ) (server : VsnfsServer)
    → has_colon addr ≡ false
    → length addr ≤ maxnamlen
    → length path ≤ maxpathlen
    → vsnfs_parse_mntpath true (addr ++ b':' ∷ path) server ≡ (
        if ltb 15 (length addr)
        then oops out_of_bounds
        else done (pos 0, record server { ip_addr = addr; mnt_path = some path }))
unfolding vsnfs_parse_mntpath
vsnfs_parse_mntpath-append addr path server plain short fits =
    ground (arith, split_colon-append addr path plain)

-- The last port among the options.
abbrev pub or_token : Option ℤ → Token → Option ℤ
or_token (some n) token = some n
or_token none (opt_port n) = some n
or_token none (opt_timeout n) = none
or_token none opt_err = none

abbrev pub chosen_port : (List ℕ → Token) → List (List ℕ) → Option ℤ
chosen_port match_token [] = none
chosen_port match_token ([] ∷ ps) = chosen_port match_token ps
chosen_port match_token ((c ∷ cs) ∷ ps) =
    or_token (chosen_port match_token ps) (match_token (c ∷ cs))

abbrev pub or_else : Option ℤ → ℤ → ℤ
or_else none d = d
or_else (some n) d = n

-- What an address and a path say of the device name that they stand in.
abbrev pub IsDevice : List ℕ → List ℕ → List ℕ → Type 0
IsDevice dev addr path =
    (dev ≡ addr ++ b':' ∷ path)
    × (has_colon addr ≡ false)
    × (length addr ≤ 15)
    × (length path ≤ maxpathlen)

-- A parse that returned without an error.
vsnfs_parse_mntpath-IsDevice :
    (alloc : Bool) (dev : List ℕ) (server : VsnfsServer) (rc : ℤ) (out : VsnfsServer)
    → vsnfs_parse_mntpath alloc dev server ≡ done (rc, out)
    → is_neg rc ≡ false
    → (addr : List ℕ) × (path : List ℕ) × IsDevice dev addr path
      × (rc ≡ pos 0)
      × (out ≡ record server { ip_addr = addr; mnt_path = some path })
unfolding vsnfs_parse_mntpath
vsnfs_parse_mntpath-IsDevice alloc dev server rc out ran good =
    elim (Option-cases (split_colon dev)) [
      | inl new ↦ absurd (ground (arith, new))
      | inr ((addr, path), old) ↦
          let (same, plain) = split_colon-eq-some dev addr path old in
          (
            addr,
            path,
            (same, plain, ground (arith, old), ground (arith, old)),
            ground (arith, old),
            ground (arith, old),
          )
    ]

or_else-apply_token :
    (rest : Option ℤ) (token : Token) (server : VsnfsServer)
    → or_else rest (apply_token token server).server_port
      ≡ or_else (or_token rest token) server.server_port
or_else-apply_token (some n) token server = refl
or_else-apply_token none (opt_port n) server = refl
or_else-apply_token none (opt_timeout n) server = refl
or_else-apply_token none opt_err server = refl

-- A token keeps the two ports in step, and leaves the address and the path alone.
apply_token_keeps :
    (token : Token) (server : VsnfsServer)
    → server.sin_port ≡ port_bits server.server_port
    → ((apply_token token server).sin_port ≡ port_bits (apply_token token server).server_port)
      × ((apply_token token server).ip_addr ≡ server.ip_addr)
      × ((apply_token token server).mnt_path ≡ server.mnt_path)
apply_token_keeps (opt_port n) server h = (refl, refl, refl)
apply_token_keeps (opt_timeout n) server h = (h, refl, refl)
apply_token_keeps opt_err server h = (h, refl, refl)

pub parse_options-port :
    (match_token : List ℕ → Token) (ps : List (List ℕ)) (server : VsnfsServer)
    → server.sin_port ≡ port_bits server.server_port
    → let out = parse_options match_token ps server in
      (out.server_port ≡ or_else (chosen_port match_token ps) server.server_port)
      × (out.sin_port ≡ port_bits out.server_port)
      × (out.ip_addr ≡ server.ip_addr)
      × (out.mnt_path ≡ server.mnt_path)
unfolding parse_options
parse_options-port match_token [] server h = (refl, h, refl, refl)
parse_options-port match_token ([] ∷ ps) server h = parse_options-port match_token ps server h
parse_options-port match_token ((c ∷ cs) ∷ ps) server h =
    let token = match_token (c ∷ cs) in
    let (ports, addr, path) = apply_token_keeps token server h in
    let (last, same, addr', path') =
      parse_options-port match_token ps (apply_token token server) ports in
    (
      last ∙ or_else-apply_token (chosen_port match_token ps) token server,
      same,
      addr' ∙ addr,
      path' ∙ path,
    )

-- If the parse of the mount's data returns and its value is not negative, then the device name is
-- an address of at most 15 bytes without a colon, a colon, and a path of at most VSNFS_MAXPATHLEN
-- bytes, both are in the server's record, its port is that of the last port option, or VSNFS_PORT
-- without one, and the socket's address has the low 16 bits of that port.
pub vsnfs_parse_mount_options-port :
    (alloc : Bool) (in4_pton : List ℕ → ℤ) (match_token : List ℕ → Token) (options : List (List ℕ))
    (dev : List ℕ) (server : VsnfsServer) (rc : ℤ) (out : VsnfsServer)
    → vsnfs_parse_mount_options alloc in4_pton match_token options dev server ≡ done (rc, out)
    → is_neg rc ≡ false
    → (path : List ℕ) × (out.mnt_path ≡ some path)
      × IsDevice dev out.ip_addr path
      × (out.server_port ≡ or_else (chosen_port match_token options) (pos default_port))
      × (out.sin_port ≡ port_bits out.server_port)
unfolding vsnfs_parse_mount_options
vsnfs_parse_mount_options-port alloc in4_pton match_token options dev server rc out ran good =
    let start : VsnfsServer = record server {
      server_port = pos default_port;
      timeout = pos default_timeout;
    } in
    let ((rc', parsed), mid, fin) = >>=-eq-done (vsnfs_parse_mntpath alloc dev start) _ ran in
    elim (Bool-cases (is_neg rc')) [
      | inl failed ↦ absurd (ground (arith, failed, fin))
      | inr fine ↦
          let (addr, path, device, zero, is) =
            vsnfs_parse_mntpath-IsDevice alloc dev start rc' parsed mid fine in
          let addressed : VsnfsServer = record parsed { sin_port = default_port } in
          let final : out ≡ parse_options match_token options addressed =
            ground (arith, zero, fin) in
          let (last, same, addr', path') =
            parse_options-port match_token options addressed (rw is refl) in
          (
            path,
            ap (λ (q : VsnfsServer). q.mnt_path) final
                ∙ path'
                ∙ ap (λ (q : VsnfsServer). q.mnt_path) is,
            subst (λ (q : List ℕ). IsDevice dev q path)
                (sym (
                  ap (λ (q : VsnfsServer). q.ip_addr) final
                  ∙ addr'
                  ∙ ap (λ (q : VsnfsServer). q.ip_addr) is))
                device,
            ap (λ (q : VsnfsServer). q.server_port) final
                ∙ last
                ∙ ap (λ (q : VsnfsServer). or_else (chosen_port match_token options) q.server_port)
                    is,
            rw final same,
          )
    ]
