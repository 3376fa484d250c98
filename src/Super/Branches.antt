-- ===== src/Super/Branches.antt =====
-- What a mount leaves on every branch: `vsnfs_get_sb` (vsnfsClient.c) over any call of the server.
use vsnfs.Base.{
  ◌≡◌, ◌∙◌, List, ℕ, some, true, false, eqb, is_neg, ℤ, pos, negsuc, Endian, done, >>=-eq-done,
  done-injective, sym, arith, ap, inl, inr, Option-cases, Bool-cases, length,
}
use vsnfs.Kernel.{Strtoul}
use vsnfs.Protocol.{VsnfsFh}
use vsnfs.Client.{ClientInode, vsnfs_fhget}
use vsnfs.Mount.{VsnfsServer}
use vsnfs.Super.Mounted.{active_super, mount_root_ok}
use vsnfs.Super.{
  MountEnv, RootCall, Outcome, mounted, failed, vsnfs_init_server, vsnfs_create_rpcclient,
  vsnfs_get_root, vsnfs_mount_root, vsnfs_get_sb,
}

eqb_pos_zero : (z : ℤ) → eqb z (pos 0) ≡ true → z ≡ pos 0
eqb_pos_zero (pos n) h = ap pos (ground (arith, h))
eqb_pos_zero (negsuc n) h = cc

module _ (s : Strtoul) (e : Endian) (env : MountEnv) where
  -- How `sget` and what follows it can end, from a server's record.
  data RootOutcome (server : VsnfsServer) (outcome : Outcome) : Type 0 where
    refused : is_neg env.sget ≡ true → outcome ≡ failed env.sget false → RootOutcome server outcome
    rooted :
        (inode : ClientInode)
        → is_neg env.sget ≡ false
        → vsnfs_fhget s e env.iget server.root_fh ≡ some inode
        → outcome ≡ mounted (active_super server) inode
        → RootOutcome server outcome

  mount_root-RootOutcome :
      (server : VsnfsServer) (outcome : Outcome)
      → vsnfs_mount_root s e env server ≡ done outcome
      → RootOutcome server outcome
  unfolding vsnfs_mount_root vsnfs_get_root
  mount_root-RootOutcome server outcome ran = elim (Bool-cases (is_neg env.sget)) [
    | inl bad ↦ refused bad (sym (done-injective (rw bad at ran)))
    | inr super ↦ elim (Option-cases (vsnfs_fhget s e env.iget server.root_fh)) [
      | inl none_found ↦ absurd (ground (arith, super, none_found, ran))
      | inr (inode, found) ↦ elim (Bool-cases env.d_alloc_root) [
        | inl memory ↦ elim (Bool-cases (is_neg env.d_obtain_alias)) [
          | inl no_alias ↦ absurd (ground (arith, super, found, memory, no_alias, ran))
          | inr alias ↦ rooted inode super found (
              done-injective
                (sym ran ∙ mount_root_ok s e env server inode super found memory alias))
        ]
        | inr no_memory ↦ absurd (ground (arith, super, found, no_memory, ran))
      ]
    ]
  ]

  module _ {State : Type 0} (getroot : RootCall State) (state : State) where
    -- The call for the root's handle succeeded, for the path of the mount, and its handle is kept.
    pub record Connected (server server' : VsnfsServer) (state' : State) : Type 0 where
      pub path : List ℕ
      pub mnt_path : server.mnt_path ≡ some path
      pub called :
          getroot state (record { path = path; len = length path }) env.fh
          ≡ done ((pos 0, server'.root_fh), state')
      pub rpcclient : server'.cl_rpcclient ≡ true

    create_rpcclient-Connected :
        (server server' : VsnfsServer) (state' : State) (ret : ℤ)
        → vsnfs_create_rpcclient getroot state env server ≡ done ((ret, server'), state')
        → is_neg ret ≡ false
        → Connected server server' state'
    unfolding vsnfs_create_rpcclient
    create_rpcclient-Connected server server' state' ret ran good =
        elim (Option-cases server.mnt_path) [
          | inl no_path ↦ absurd (ground (arith, no_path, ran))
          | inr (path, has) ↦ elim (Bool-cases (is_neg env.rpc_create)) [
            | inl bad ↦ absurd (ground (arith, has, bad, ran, good))
            | inr client ↦ elim (Bool-cases env.kmalloc) [
              | inr short ↦ absurd (ground (arith, has, client, short, ran, good))
              | inl memory ↦
                  let (((got, fh), after), called, last) =
                    >>=-eq-done (getroot state (record { path = path; len = length path }) env.fh) _
                      (rw (has, client, memory) at ran) in
                  elim (Bool-cases (eqb got (pos 0))) [
                    | inr differ ↦ absurd (ground (arith, differ, last, good))
                    | inl zero_status ↦
                        let same = done-injective (rw zero_status at last) in
                        let fh_is : fh ≡ server'.root_fh =
                          ap (λ (p : (ℤ × VsnfsServer) × State). p.0.1.root_fh) same in
                        record {
                          path = path;
                          mnt_path = has;
                          called =
                              called
                              ∙ ap (λ (z : ℤ). done ((z, fh), after)) (eqb_pos_zero got zero_status)
                              ∙ ap (λ (h : VsnfsFh). done ((pos 0, h), after)) fh_is
                              ∙ ap
                                  (λ (p : (ℤ × VsnfsServer) × State).
                                    done ((pos 0, server'.root_fh), p.1))
                                  same;
                          rpcclient =
                              sym (ap (λ (p : (ℤ × VsnfsServer) × State). p.0.1.cl_rpcclient) same);
                        }
                  ]
            ]
          ]
        ]

    -- The ways a mount can end: its options are refused, the server is not reached or refuses the
    -- path, the kernel has no superblock, or there is one.
    pub data IsOutcome (blank : VsnfsServer) (dev_name : List ℕ) (options : List (List ℕ))
        (outcome : Outcome) (state' : State) : Type 0 where
      no_options :
          (err : ℤ) (server : VsnfsServer)
          → vsnfs_init_server env blank dev_name options ≡ done (err, server)
          → is_neg err ≡ true
          → outcome ≡ failed err true
          → state' ≡ state
          → IsOutcome blank dev_name options outcome state'
      no_root :
          (ret err : ℤ) (server server' : VsnfsServer)
          → vsnfs_init_server env blank dev_name options ≡ done (ret, server)
          → is_neg ret ≡ false
          → vsnfs_create_rpcclient getroot state env server ≡ done ((err, server'), state')
          → is_neg err ≡ true
          → outcome ≡ failed err true
          → IsOutcome blank dev_name options outcome state'
      no_super :
          (ret : ℤ) (server server' : VsnfsServer)
          → vsnfs_init_server env blank dev_name options ≡ done (ret, server)
          → is_neg ret ≡ false
          → Connected server server' state'
          → is_neg env.sget ≡ true
          → outcome ≡ failed env.sget false
          → IsOutcome blank dev_name options outcome state'
      active :
          (ret : ℤ) (server server' : VsnfsServer) (inode : ClientInode)
          → vsnfs_init_server env blank dev_name options ≡ done (ret, server)
          → is_neg ret ≡ false
          → Connected server server' state'
          → is_neg env.sget ≡ false
          → vsnfs_fhget s e env.iget server'.root_fh ≡ some inode
          → outcome ≡ mounted (active_super server') inode
          → IsOutcome blank dev_name options outcome state'

    -- A mount that returns, whatever the kernel and the server answer, ended in one of four ways. The
    -- options were refused, and it returns their negative errno. Or they were read and the making of
    -- the RPC client or its call for the root's handle failed, and it returns this negative errno. Both
    -- leave the server's record to nobody. Or the call gave a handle for the path of the mount, with
    -- the value 0, and `sget` failed: its errno is returned, and the record is freed. Or `sget` did not
    -- fail after such a call, and there is an active superblock of VSNFS with the server's record, which
    -- has an RPC client and that handle, and the inode of the handle.
    pub vsnfs_get_sb-IsOutcome :
        (state' : State) (blank : VsnfsServer) (dev_name : List ℕ) (options : List (List ℕ))
        (outcome : Outcome)
        → vsnfs_get_sb s e env getroot state blank dev_name options ≡ done (outcome, state')
        → IsOutcome blank dev_name options outcome state'
    unfolding vsnfs_get_sb
    vsnfs_get_sb-IsOutcome state' blank dev_name options outcome ran =
        elim (Bool-cases env.kzalloc) [
          | inr nothing ↦ absurd (ground (arith, nothing, ran))
          | inl zeroed ↦
              let ((ret, server), parsed, rest) =
                >>=-eq-done (vsnfs_init_server env blank dev_name options) _ (rw zeroed at ran) in
              elim (Bool-cases (is_neg ret)) [
                | inl bad ↦
                    let same = sym (done-injective (rw bad at rest)) in
                    no_options ret server parsed bad (ap (λ (p : Outcome × State). p.0) same)
                      (ap (λ (p : Outcome × State). p.1) same)
                | inr good ↦
                    let (((ret', server'), after), created, rest') =
                      >>=-eq-done (vsnfs_create_rpcclient getroot state env server) _
                        (rw good at rest) in
                    elim (Bool-cases (is_neg ret')) [
                      | inl bad ↦
                          let same = done-injective (rw bad at rest') in
                          let at_end = ap (λ (p : Outcome × State). p.1) same in
                          no_root ret ret' server server' parsed good
                            (created ∙ ap (λ (q : State). done ((ret', server'), q)) at_end) bad
                            (sym (ap (λ (p : Outcome × State). p.0) same))
                      | inr fine ↦
                          let (left, made, last) =
                            >>=-eq-done (vsnfs_mount_root s e env server') _ (rw fine at rest') in
                          let same = done-injective last in
                          let met =
                            create_rpcclient-Connected server server' state' ret'
                              (created
                                ∙ ap (λ (p : Outcome × State). done ((ret', server'), p.1)) same)
                              fine in
                          elim (mount_root-RootOutcome server' outcome
                            (made ∙ ap (λ (p : Outcome × State). done p.0) same)) [
                              | refused bad is ↦ no_super ret server server' parsed good met bad is
                              | rooted inode super found is ↦
                                  active ret server server' inode parsed good met super found is
                            ]
                    ]
              ]
        ]
