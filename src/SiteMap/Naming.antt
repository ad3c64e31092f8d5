-- ===== src/SiteMap/Naming.antt =====
-- The ids of the nodes of the site map, and what `parseNodeID` reads from them.
use shiv.Prelude.{ℕ, ◌≤◌, ◌≡◌, ap, ◌∙◌, some, [], ◌∷◌, ◌++◌, arith}
use shiv.Prelude.Int.{ℤ, pos}
use shiv.Text.{Bytes, codes, has_prefix, contains_byte, cut, split_host_port}
use shiv.Text.Number.{itoa, max_int, atoi}
use shiv.Text.Number.Digits.{itoa-IsPlain, itoa-no_bar, atoi-itoa}
use shiv.Text.Host.{IsPlain, split_host_port-append}
use shiv.Text.Split.{Lacks, Lacks-append}
use shiv.Text.Sort.{join_host_port}
use shiv.Text.Words.{cut-append}
use shiv.Format.{itoa_int}
use shiv.SiteMap.{host_port_key, host_and_port, parse_node_id}

-- The ids that `childUIDs` writes for a host, and for a path below it.
abbrev pub host_uid : Bytes → ℤ → Bytes
host_uid host port = codes "h:" ++ host_port_key host port

abbrev pub path_uid : Bytes → ℤ → Bytes → Bytes
path_uid host port path = codes "p:" ++ (host_port_key host port ++ (codes "|" ++ path))

plain_key :
    (host : Bytes) (p : ℕ) → IsPlain host → host_port_key host (pos p) ≡ host ++ b':' ∷ itoa p
unfolding host_port_key join_host_port itoa_int
plain_key host p h = ground arith

host_port_key_split :
    (host : Bytes) (p : ℕ)
    → IsPlain host
    → split_host_port (host_port_key host (pos p)) ≡ some (host, itoa p)
host_port_key_split host p h =
    ap split_host_port (plain_key host p h)
    ∙ split_host_port-append host (itoa p) h (itoa-IsPlain p)

no_bar_in_key :
    (host : Bytes) (p : ℕ)
    → IsPlain host
    → Lacks b'|' host
    → Lacks b'|' (host_port_key host (pos p))
no_bar_in_key host p h bar =
    ap (contains_byte b'|') (plain_key host p h)
    ∙ Lacks-append b'|' host (b':' ∷ itoa p) bar (unfold contains_byte in itoa-no_bar p)

host_and_port_lem :
    (text path h digits : Bytes) (p : ℕ)
    → split_host_port text ≡ some (h, digits)
    → atoi digits ≡ pos p
    → host_and_port text path ≡ record { host = h; port = pos p; path = path }
unfolding host_and_port
host_and_port_lem text path h digits p e n = ground arith

parse_node_id-path :
    (text key path : Bytes)
    → cut text (codes "|") ≡ some (key, path)
    → parse_node_id (codes "p:" ++ text) ≡ some (host_and_port key path)
unfolding parse_node_id has_prefix
parse_node_id-path text key path e = ground arith

-- The id of a host node reads back as its host and port, and that of a path node as its host, port
-- and path, where the host has no colon, bracket or bar and the port is that of an int.
pub parse_node_id-uid :
    (host : Bytes) (p : ℕ) (path : Bytes)
    → IsPlain host
    → Lacks b'|' host
    → p ≤ max_int
    → (parse_node_id (host_uid host (pos p))
        ≡ some (record { host = host; port = pos p; path = [] }))
      × (parse_node_id (path_uid host (pos p) path)
          ≡ some (record { host = host; port = pos p; path = path }))
parse_node_id-uid host p path h bar small =
    let key = host_port_key host (pos p) in
    let read = λ (path : Bytes).
      host_and_port_lem key path host (itoa p) p (host_port_key_split host p h)
        (atoi-itoa p small) in
    (
      unfold parse_node_id has_prefix in ap some (read []),
      parse_node_id-path (key ++ b'|' ∷ path) key path
            (cut-append b'|' key path (no_bar_in_key host p h bar))
          ∙ ap some (read path),
    )
