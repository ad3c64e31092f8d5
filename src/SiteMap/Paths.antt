-- ===== src/SiteMap/Paths.antt =====
-- Which paths `add` of internal/ui/history.go puts into the site map.
use shiv.Prelude.{
  if◌then◌else◌, ◌≡◌, refl, Bool, true, false, ◌&&◌, ◌||◌, none, some, List, [], ◌∷◌, arith,
}
use shiv.Prelude.Int.{ℤ}
use shiv.Text.{Bytes, same}
use shiv.Text.Equality.{same_iff}
use shiv.SiteMap.{
  leaf, child, split_path, tree_path_of, host_port_key, add_path, add_host, add, find_path,
  find_host, SiteMap, SiteMapNode,
}

unfoldable pub has_path : List Bytes → SiteMapNode → Bool
unfolding find_path
has_path segs node = elim (find_path segs node) [ none ↦ false | some found ↦ true ]

pub starts : List Bytes → List Bytes → Bool
starts segs [] = true
starts [] (q ∷ qs) = false
starts (s ∷ segs) (q ∷ qs) = same s q && starts segs qs

has_path-leaf : (segs qs : List Bytes) → (has_path qs leaf || starts segs qs) ≡ starts segs qs
unfolding has_path starts
has_path-leaf segs [] = refl
has_path-leaf segs (q ∷ qs) = refl

has_path-child :
    (q : Bytes) (qs : List Bytes) (name : Bytes) (below others : SiteMapNode)
    → has_path (q ∷ qs) (child name below others)
      ≡ (if same name q then has_path qs below else has_path (q ∷ qs) others)
unfolding has_path
has_path-child q qs name below others = ground arith

-- What a node leads to once a path is added: what it led to, and every start of that path.
has_path-add_path :
    (segs qs : List Bytes) (node : SiteMapNode)
    → has_path qs (add_path segs node) ≡ (has_path qs node || starts segs qs)
unfolding add_path starts
has_path-add_path segs [] node = unfold has_path in refl
has_path-add_path [] (q ∷ qs) node = ground arith
has_path-add_path (seg ∷ segs) (q ∷ qs) leaf =
    let none_there : has_path (q ∷ qs) leaf ≡ false = unfold has_path in refl in
    rw
      (
        has_path-child q qs seg (add_path segs leaf) leaf,
        has_path-add_path segs qs leaf,
        has_path-leaf segs qs,
        none_there,
      )
      (ground (arith, same_iff seg q))
has_path-add_path (seg ∷ segs) (q ∷ qs) (child name below others) = ground (
  arith,
  has_path-child q qs name below others,
  has_path-child q qs name (add_path segs below) others,
  has_path-child q qs name below (add_path (seg ∷ segs) others),
  has_path-add_path segs qs below,
  has_path-add_path (seg ∷ segs) (q ∷ qs) others,
  same_iff name seg,
  same_iff name q,
  same_iff seg q,
)

unfoldable pub has_node : Bytes → List Bytes → List (Bytes × SiteMapNode) → Bool
unfolding find_host
has_node key qs hosts = elim (find_host key hosts) [ none ↦ false | some node ↦ has_path qs node ]

has_node-add_host :
    (key : Bytes) (segs : List Bytes) (k : Bytes) (qs : List Bytes)
    (hosts : List (Bytes × SiteMapNode))
    → has_node k qs (add_host key segs hosts)
      ≡ (has_node k qs hosts || same key k && starts segs qs)
unfolding has_node add_host
has_node-add_host key segs k qs [] =
    ground (arith, has_path-add_path segs qs leaf, has_path-leaf segs qs)
has_node-add_host key segs k qs ((j, node) ∷ hosts) = ground (
  arith,
  has_node-add_host key segs k qs hosts,
  has_path-add_path segs qs node,
  same_iff j key,
  same_iff j k,
  same_iff key k,
)

-- Adding a transaction puts in the site map exactly the nodes of its host and port whose path is a
-- start of the path of its URL, the query left out, and keeps all nodes that were there.
pub has_node-add :
    (host : Bytes) (port : ℤ) (url k : Bytes) (qs : List Bytes) (m : SiteMap)
    → has_node k qs (add host port url m).hosts ≡ (
        has_node k qs m.hosts
        || same (host_port_key host port) k && starts (split_path (tree_path_of url)) qs)
unfolding add
has_node-add host port url k qs m =
    has_node-add_host (host_port_key host port) (split_path (tree_path_of url)) k qs m.hosts
