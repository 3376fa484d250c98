-- ===== src/Tests/Server.antt =====
-- Tables that calls lead to: Server.Reach.
use vsnfs.Base.{refl, little, arith}
use vsnfs.ServerXdr.{ReaddirRes}
use vsnfs.ServerXdr.{has_nul}
use vsnfs.Server.Resolve.{plenty}
use vsnfs.Server.Reach.{Reach, start, next, lookup, getroot}
use vsnfs.Tests.Instances.{strtoul, vfs, root_path, name_b, some_fh}
use vsnfs.Tests.Replies.{root_table, b_table, root_reply, b_reply, root_reply_lem, b_reply_lem}

Reach-root : Reach strtoul (vfs {State = ReaddirRes}) little root_table
unfolding has_nul
Reach-root = next start (
    getroot plenty (record { path = root_path; len = 3 }) some_fh root_reply (omega arith) refl
      root_reply_lem refl)

pub Reach-b : Reach strtoul (vfs {State = ReaddirRes}) little b_table
Reach-b = next Reach-root (
    lookup plenty (record { fh = root_reply.resp; filename = name_b; len = 1 }) some_fh b_reply
      b_reply_lem refl)
