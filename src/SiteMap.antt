-- ===== src/SiteMap.antt =====
-- The site map of internal/ui/history.go: the tree of hosts and paths beside the history, and the
-- ids by which the tree widget names its nodes. A Go map is an association list.
pub mod Paths
pub mod Naming
pub mod Entries
mod Tests
use mathlib.Core.Option
use shiv.Prelude.{
  if◌then◌else◌, drop, Bool, true, false, not, ◌&&◌, ◌||◌, Option, none, some, List, [], ◌∷◌, ◌++◌,
  map,
}
use shiv.Prelude.Int.{ℤ, pos}
use shiv.Text.{Bytes, codes, same, has_prefix, contains, cut, split, to_lower, split_host_port}
use shiv.Text.Number.{atoi}
use shiv.Text.Sort.{sort, join_host_port}
use shiv.History.{same_int, select}
use shiv.Format.{path_of, itoa_int}

-- A node is the map of its children.
pub data SiteMapNode : Type 0 where
  leaf : SiteMapNode
  child : Bytes → SiteMapNode → SiteMapNode → SiteMapNode

-- `scope_filter` is `none` where it is nil.
pub record SiteMap : Type 0 where
  pub hosts : List (Bytes × SiteMapNode)
  pub scope_filter : Option (Bytes → Bool)
  pub text_filter : Bytes

unfoldable pub new_site_map : SiteMap
new_site_map = record { hosts = []; scope_filter = none; text_filter = [] }

is_empty : Bytes → Bool
is_empty [] = true
is_empty (c ∷ s) = false

unfoldable pub split_path : Bytes → List Bytes
unfolding is_empty
split_path path = select (λ s. not (is_empty s)) (split path (codes "/"))

-- The text before the first question mark.
unfoldable pub before_query : Bytes → Bytes
before_query s = elim (cut s (codes "?")) [ none ↦ s | some (p, q) ↦ p ]

unfoldable pub tree_path_of : Bytes → Bytes
unfolding before_query
tree_path_of url = before_query (path_of url)

unfoldable pub host_port_key : Bytes → ℤ → Bytes
unfolding join_host_port itoa_int
host_port_key host port = join_host_port host (itoa_int port)

unfoldable pub display_host : Bytes → ℤ → Bytes
unfolding join_host_port itoa_int same_int
display_host host port =
    if same_int port (pos 0) || (same_int port (pos 80) || same_int port (pos 443))
    then host
    else join_host_port host (itoa_int port)

-- The loop of `add` over the segments.
unfoldable pub add_path : List Bytes → SiteMapNode → SiteMapNode
unfolding same
add_path [] node = node
add_path (seg ∷ segs) leaf = child seg (add_path segs leaf) leaf
add_path (seg ∷ segs) (child name below others) =
    let here = child name (add_path segs below) others in
    let there = child name below (add_path (seg ∷ segs) others) in
    if same name seg then here else there

unfoldable pub add_host :
    Bytes → List Bytes → List (Bytes × SiteMapNode) → List (Bytes × SiteMapNode)
unfolding same add_path
add_host key segs [] = (key, add_path segs leaf) ∷ []
add_host key segs ((k, node) ∷ hosts) =
    let there = (k, node) ∷ add_host key segs hosts in
    if same k key then (k, add_path segs node) ∷ hosts else there

-- `add`, of which the host, the port and the URL of the transaction are used.
unfoldable pub add : Bytes → ℤ → Bytes → SiteMap → SiteMap
unfolding host_port_key split_path tree_path_of add_host
add host port url m = record m {
  hosts = add_host (host_port_key host port) (split_path (tree_path_of url)) m.hosts;
}

unfoldable pub clear : SiteMap → SiteMap
clear m = record m { hosts = [] }

-- The walk from a node along the segments.
unfoldable pub find_path : List Bytes → SiteMapNode → Option SiteMapNode
unfolding same
find_path [] node = some node
find_path (seg ∷ segs) leaf = none
find_path (seg ∷ segs) (child name below others) =
    let here = find_path segs below in
    let there = find_path (seg ∷ segs) others in if same name seg then here else there

unfoldable pub find_host : Bytes → List (Bytes × SiteMapNode) → Option SiteMapNode
unfolding same
find_host key [] = none
find_host key ((k, node) ∷ hosts) = if same k key then some node else find_host key hosts

unfoldable pub remove_host : Bytes → List (Bytes × SiteMapNode) → List (Bytes × SiteMapNode)
unfolding same
remove_host key [] = []
remove_host key ((k, node) ∷ hosts) =
    let rest = remove_host key hosts in if same k key then rest else (k, node) ∷ rest

pub record NodeId : Type 0 where
  pub host : Bytes
  pub port : ℤ
  pub path : Bytes

-- A host with its port, or the text itself with port 0.
host_and_port : Bytes → Bytes → NodeId
host_and_port text path = elim (split_host_port text) [
  | none ↦ record { host = text; port = pos 0; path = path }
  | some (h, p) ↦ record { host = h; port = atoi p; path = path }
]

unfoldable pub parse_node_id : Bytes → Option NodeId
unfolding host_and_port
parse_node_id uid =
    if has_prefix uid (codes "h:")
    then some (host_and_port (drop 2 uid) [])
    else if has_prefix uid (codes "p:")
    then elim (cut (drop 2 uid) (codes "|")) [
      | none ↦ none
      | some (host_port, path) ↦ some (host_and_port host_port path)
    ]
    else none

-- The node that an id names.
unfoldable pub find_node : NodeId → SiteMap → Option SiteMapNode
unfolding host_port_key find_host find_path split_path
find_node id m = elim (find_host (host_port_key id.host id.port) m.hosts) [
  | none ↦ none
  | some node ↦ find_path (split_path id.path) node
]

passes : Option (Bytes → Bool) → Bytes → Bool
passes none host = true
passes (some f) host = f host

-- The host and the text of the port of a key, as `childUIDs` reads them.
key_parts : Bytes → Bytes × Bytes
key_parts key = elim (split_host_port key) [
  | none ↦ (key, [])
  | some ([], port) ↦ (key, port)
  | some (c ∷ h, port) ↦ (c ∷ h, port)
]

unfoldable pub shows_host : SiteMap → Bytes → Bool
unfolding passes key_parts display_host is_empty
shows_host m key =
    let (h, port) = key_parts key in
    passes m.scope_filter h
    && (is_empty m.text_filter
        || contains (to_lower (display_host h (atoi port))) (to_lower m.text_filter))

host_uids : SiteMap → List (Bytes × SiteMapNode) → List Bytes
unfolding shows_host
host_uids m [] = []
host_uids m ((key, node) ∷ hosts) =
    let rest = host_uids m hosts in if shows_host m key then (codes "h:" ++ key) ∷ rest else rest

path_uids : Bytes → Bytes → SiteMapNode → List Bytes
path_uids key path leaf = []
path_uids key path (child name below others) =
    (codes "p:" ++ (key ++ (codes "|" ++ (path ++ (codes "/" ++ name)))))
    ∷ path_uids key path others

-- Of the ids below an id; nil is the empty list.
unfoldable pub child_uids : SiteMap → Bytes → List Bytes
unfolding host_uids path_uids find_node parse_node_id sort host_port_key
child_uids m [] = sort (host_uids m m.hosts)
child_uids m (c ∷ s) = elim (parse_node_id (c ∷ s)) [
  | none ↦ []
  | some id ↦ elim (find_node id m) [
    | none ↦ []
    | some node ↦ sort (path_uids (host_port_key id.host id.port) id.path node)
  ]
]

has_children : SiteMapNode → Bool
has_children leaf = false
has_children (child name below others) = true

unfoldable pub is_branch : SiteMap → Bytes → Bool
unfolding parse_node_id find_node has_children
is_branch m [] = true
is_branch m (c ∷ s) = elim (parse_node_id (c ∷ s)) [
  | none ↦ false
  | some id ↦ elim (find_node id m) [ none ↦ false | some node ↦ has_children node ]
]

-- `none` is the index out of range on a path with no segment.
last_segment : List Bytes → Option Bytes
last_segment [] = none
last_segment (s ∷ []) = some s
last_segment (s ∷ r ∷ segs) = last_segment (r ∷ segs)

path_label : NodeId → Bytes → Option Bytes
unfolding display_host split_path last_segment
path_label id [] = some (display_host id.host id.port)
path_label id (c ∷ path) = Option.map (◌∷◌ b'/') (last_segment (split_path (c ∷ path)))

unfoldable pub label_for : Bytes → Option Bytes
unfolding parse_node_id path_label
label_for uid = elim (parse_node_id uid) [ none ↦ some uid | some id ↦ path_label id id.path ]
