-- ===== src/Tests/Table.antt =====
-- The server's table and its meaning: Server.Refine, Server.Simulate.
use vsnfs.Base.{◌≡◌, refl, [], ◌∷◌, pos, little, done, arith}
use vsnfs.Protocol.{maxpathlen}
use vsnfs.ServerXdr.{ReaddirRes, has_nul}
use vsnfs.Server.{Reply, ends_in_slash, strncpy, vsnfsd_fh_to_path}
use vsnfs.Server.Resolve.{plenty}
use vsnfs.Server.Reach.{Reach, lookup}
use vsnfs.Server.Spec.{view, LookupSpec}
use vsnfs.Server.Refine.{vsnfsd_proc_lookup-LookupSpec}
use vsnfs.Server.Getroot.{vsnfsd_proc_getroot}
use vsnfs.Server.Simulate.{AbsStep, Step-AbsStep, Reach-getroot}
use vsnfs.Tests.Instances.{strtoul, vfs, root_path, name_b, some_fh}
use vsnfs.Tests.Replies.{root_table, b_table, root_reply, b_reply, b_reply_lem}
use vsnfs.Tests.Server.{Reach-b}

vsnfsd_proc_lookup-LookupSpec_example :
    LookupSpec strtoul
      (vfs {State = ReaddirRes})
      little
      (view root_table)
      (record { fh = root_reply.resp; filename = name_b; len = 1 })
      some_fh
      (view b_table)
      0
      b_reply.resp
vsnfsd_proc_lookup-LookupSpec_example =
    vsnfsd_proc_lookup-LookupSpec strtoul (vfs {State = ReaddirRes}) little plenty
      (record { ino = 2; path = root_path } ∷ [])
      (record { fh = root_reply.resp; filename = name_b; len = 1 }) some_fh b_reply b_reply_lem

Step-AbsStep_example : AbsStep (vfs {State = ReaddirRes}) (view root_table) (view b_table)
Step-AbsStep_example =
    Step-AbsStep strtoul (vfs {State = ReaddirRes}) little {t = root_table} {u = b_table} (
      lookup plenty (record { fh = root_reply.resp; filename = name_b; len = 1 }) some_fh b_reply
        b_reply_lem refl)

Reach-getroot_example :
    (r : Reply) × (vsnfsd_proc_getroot
        (vfs {State = ReaddirRes})
        little
        plenty
        b_table
        (record { path = root_path; len = 3 })
        some_fh
      ≡ done r)
    × (r.status ≡ 0)
    × Reach strtoul (vfs {State = ReaddirRes}) little r.table
    × (vsnfsd_fh_to_path strtoul little r.table r.resp maxpathlen
        ≡ done (pos 0, strncpy root_path maxpathlen))
unfolding has_nul ends_in_slash
Reach-getroot_example =
    Reach-getroot strtoul (vfs {State = ReaddirRes}) little b_table
      (record { path = root_path; len = 3 }) some_fh 2 Reach-b (omega arith) refl (λ h. cc) refl
      refl (omega arith) (omega arith)
