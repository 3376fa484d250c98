-- ===== src/Tests/Meaning.antt =====
-- Calls on two tables that name the same paths, and a walk: Rpc.Meaning, Rpc.Walk.
use vsnfs.Base.{
  ◌≡◌, refl, List, [], ◌∷◌, ◌==◌, some, little, Bool-cases, inl, inr, ◌++◌, done, pos, arith,
}
use vsnfs.ServerXdr.{ReaddirRes, has_nul, has_nul_or_slash}
use vsnfs.Vfs.{Inode, directory, regular}
use vsnfs.Server.Lookup.{fh_for}
use vsnfs.Server.Spec.{nodes_view, learn}
use vsnfs.Rpc.Ops.{vsnfs_clientops}
use vsnfs.Rpc.Walk.{walk, walk-Chain}
use vsnfs.Rpc.Serve.{serve}
use vsnfs.Server.{Table, Node, find_node}
use vsnfs.Server.Same.{Same}
use vsnfs.ClientXdr.{readdir, lookup, vsnfs_xdr_lookupargs, vsnfs_xdr_readdirargs}
use vsnfs.Wire.Args.{blank}
use vsnfs.Rpc.Meaning.{Request, serve_all, serve_meanings, answers, meant, meaning, serve_all-Same}
use vsnfs.Tests.Instances.{some_fh, sunrpc, strtoul, vfs, surroundings, root_path, name_b}
use vsnfs.Tests.Replies.{root_reply}

abbrev root_node : Node
root_node = record { ino = 2; path = root_path }

-- The node of the root, once and twice, with another path for it behind.
abbrev once : Table
once = some (root_node ∷ [])

abbrev twice : Table
twice = some (root_node ∷ record root_node { path = name_b } ∷ [])

once-twice : Same once twice
unfolding find_node
once-twice =
    λ ino. elim (Bool-cases (2 == ino)) [ inl root ↦ rw root refl | inr another ↦ rw another refl ]

-- A lookup of "b" in the root, and then the listing of the root.
abbrev requests : List Request
requests =
    record {
      env = surroundings;
      proc = lookup;
      sent =
          vsnfs_xdr_lookupargs sunrpc blank
            (record { fh = root_reply.resp; filename = name_b; len = 1 });
    }
    ∷ record {
      env = surroundings;
      proc = readdir;
      sent = vsnfs_xdr_readdirargs sunrpc blank 8 (record { fh = root_reply.resp; count = 4096 });
    }
    ∷ []

serve_all-Same_example :
    (answers (serve_all sunrpc strtoul (vfs {State = ReaddirRes}) little once requests)
      ≡ answers (serve_all sunrpc strtoul (vfs {State = ReaddirRes}) little twice requests))
    × (meant (serve_all sunrpc strtoul (vfs {State = ReaddirRes}) little once requests)
        ≡ serve_meanings sunrpc strtoul (vfs {State = ReaddirRes}) little (meaning twice) requests)
serve_all-Same_example =
    serve_all-Same sunrpc strtoul (vfs {State = ReaddirRes}) little requests once twice once-twice

abbrev inode_a : Inode
inode_a = record { i_ino = 2; kind = directory }

abbrev inode_b : Inode
inode_b = record { i_ino = 12; kind = regular }

walk-Chain_example :
    (ns' : List Node) × (walk
        (vsnfs_clientops sunrpc
          (serve sunrpc strtoul (vfs {State = ReaddirRes}) little surroundings))
        some_fh
        once
        (fh_for some_fh inode_a)
        (name_b ∷ [])
      ≡ done ((pos 0, fh_for some_fh inode_b), some ns'))
    × (nodes_view ns' ≡ learn (nodes_view (root_node ∷ [])) 12 (root_path ++ name_b))
unfolding find_node has_nul has_nul_or_slash
walk-Chain_example =
    walk-Chain sunrpc strtoul (vfs {State = ReaddirRes}) little surroundings refl refl refl some_fh
      (name_b ∷ []) (root_node ∷ []) inode_a inode_b
      (learn (nodes_view (root_node ∷ [])) 12 (root_path ++ name_b)) (omega arith) (λ h. cc)
      (
        root_path,
        inode_b,
        record {
          known = refl;
          clean = refl;
          some_path = λ h. cc;
          short = omega arith;
          named = refl;
          fits = omega arith;
          looked_up = refl;
          kind = λ h. cc;
        },
        omega arith,
        (refl, refl),
      )
