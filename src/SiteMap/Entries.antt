-- ===== src/SiteMap/Entries.antt =====
-- The site map at the start of the program: SiteMapEntries of internal/store/history.go and
-- loadSiteMapEntries of internal/ui/history.go. `fails` is an error of the database.
use shiv.Prelude.{
  if◌then◌else◌, ◌≡◌, Bool, true, false, ◌&&◌, ◌||◌, Option, none, some, List, [], ◌∷◌, ◌++◌, arith,
}
use shiv.Prelude.Int.{ℤ}
use shiv.Text.{Bytes, same}
use shiv.History.{Row, HistoryTable}
use shiv.SiteMap.{split_path, tree_path_of, host_port_key, add, SiteMap}
use shiv.SiteMap.Paths.{starts, has_node, has_node-add}

pub record SiteMapEntry : Type 0 where
  pub host : Bytes
  pub port : ℤ
  pub url : Bytes

entry_of : Row → SiteMapEntry
entry_of r = record { host = r.entry.host; port = r.entry.port; url = r.entry.url }

-- `ORDER BY id ASC`, where the rows stand newest first
oldest_first : List Row → List SiteMapEntry
unfolding entry_of
oldest_first [] = []
oldest_first (r ∷ rs) = oldest_first rs ++ entry_of r ∷ []

unfoldable pub site_map_entries : Bool → HistoryTable → Option (List SiteMapEntry)
unfolding oldest_first
site_map_entries fails table = if fails then none else some (oldest_first table.rows)

add_all : List SiteMapEntry → SiteMap → SiteMap
add_all [] m = m
add_all (e ∷ es) m = add_all es (add e.host e.port e.url m)

unfoldable pub load_site_map_entries : Bool → HistoryTable → SiteMap → SiteMap
unfolding add_all
load_site_map_entries fails table m = elim (site_map_entries fails table) [
  | none ↦ m
  | some es ↦ add_all es m
]

-- Whether a URL leads to a node, or one of the rows does.
abbrev leads : Bytes → List Bytes → Bytes → ℤ → Bytes → Bool
leads k qs host port url =
    same (host_port_key host port) k && starts (split_path (tree_path_of url)) qs

pub one_leads : Bytes → List Bytes → List Row → Bool
one_leads k qs [] = false
one_leads k qs (r ∷ rs) = leads k qs r.entry.host r.entry.port r.entry.url || one_leads k qs rs

has_node-add_all :
    (k : Bytes) (qs : List Bytes) (es : List SiteMapEntry) (e : SiteMapEntry) (m : SiteMap)
    → has_node k qs (add_all (es ++ e ∷ []) m).hosts
      ≡ (has_node k qs (add_all es m).hosts || leads k qs e.host e.port e.url)
unfolding add_all
has_node-add_all k qs [] e m = has_node-add e.host e.port e.url k qs m
has_node-add_all k qs (d ∷ es) e m = has_node-add_all k qs es e (add d.host d.port d.url m)

rows_loaded :
    (k : Bytes) (qs : List Bytes) (rs : List Row) (m : SiteMap)
    → has_node k qs (add_all (oldest_first rs) m).hosts
      ≡ (has_node k qs m.hosts || one_leads k qs rs)
unfolding oldest_first one_leads add_all
rows_loaded k qs [] m = ground arith
rows_loaded k qs (r ∷ rs) m =
    let at = has_node-add_all k qs (oldest_first rs) (entry_of r) m in
    let ih = rows_loaded k qs rs m in ground arith

-- Once the entries of the history are loaded, the site map has exactly the nodes that it had, and
-- for each row of the history the nodes of its host and port whose path is a start of the path of
-- its URL, the query left out; where the database fails it stays as it was.
pub has_node-load_site_map_entries :
    (fails : Bool) (table : HistoryTable) (k : Bytes) (qs : List Bytes) (m : SiteMap)
    → has_node k qs (load_site_map_entries fails table m).hosts
      ≡ (has_node k qs m.hosts || (if fails then false else one_leads k qs table.rows))
unfolding load_site_map_entries site_map_entries
has_node-load_site_map_entries true table k qs m = ground arith
has_node-load_site_map_entries false table k qs m = rows_loaded k qs table.rows m
