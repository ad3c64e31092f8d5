-- ===== src/HistoryTab.antt =====
-- internal/ui/history.go: the filter of the history tab, its pages, the rows that arrive live, and
-- the deletes. What runs under the tab's mutex or on the UI thread is one handler here; a page is
-- asked for, read and delivered in three. The pane of the selected row is left out.
pub mod Loading
pub mod Filter
pub mod Csrf
pub mod System
pub mod Scroll
mod Tests
use shiv.Prelude.{
  leb, ◌==◌, if◌then◌else◌, length, set, ℕ, ◌+◌, Bool, true, false, not, ◌&&◌, ◌||◌, Option, none,
  some, List, [], ◌∷◌, ◌++◌,
}
use shiv.Prelude.Int.{pos}
use shiv.Text.{Bytes, codes, same, has_prefix, has_suffix, fields, to_lower}
use shiv.History.{page_size, same_int, select, Transaction, TransactionFilter}
use shiv.History.Export.{last_id}
use shiv.SiteMap.{
  new_site_map, tree_path_of, host_port_key, add, clear, remove_host, parse_node_id, SiteMap,
  NodeId,
}

pub data MethodChoice : Type 0 where
  any_method : MethodChoice
  only : Bytes → MethodChoice

pub data StatusChoice : Type 0 where
  any_status s2xx s3xx s4xx s5xx : StatusChoice

-- What the user has set in the widgets.
pub record Inputs : Type 0 where
  pub search : Bytes
  pub show_out_scope : Bool
  pub hide_static : Bool
  pub method : MethodChoice
  pub status : StatusChoice

pub record Tab : Type 0 where
  pub displayed : List Transaction
  pub cursor : ℕ
  pub loading_more : Bool
  pub has_more : Bool
  pub query_id : ℕ
  pub site_map : SiteMap
  pub selected_uid : Bytes
  pub inputs : Inputs

unfoldable pub new_tab : Inputs → Tab
unfolding new_site_map
new_tab inputs = record {
  displayed = [];
  cursor = 0;
  loading_more = false;
  has_more = true;
  query_id = 0;
  site_map = new_site_map;
  selected_uid = [];
  inputs = inputs;
}

method_list : MethodChoice → List Bytes
method_list any_method = []
method_list (only m) = m ∷ []

status_range : StatusChoice → ℕ × ℕ
status_range any_status = (0, 0)
status_range s2xx = (200, 299)
status_range s3xx = (300, 399)
status_range s4xx = (400, 499)
status_range s5xx = (500, 599)

empty_node : NodeId
empty_node = record { host = []; port = pos 0; path = [] }

-- The node that is selected, or empty fields.
node_or_empty : Bytes → NodeId
unfolding empty_node parse_node_id
node_or_empty [] = empty_node
node_or_empty (c ∷ uid) = elim (parse_node_id (c ∷ uid)) [ none ↦ empty_node | some id ↦ id ]

unfoldable pub current_filter : Tab → TransactionFilter
unfolding method_list status_range node_or_empty
current_filter t =
    let (low, high) = status_range t.inputs.status in
    let id = node_or_empty t.selected_uid in
    record {
      search = t.inputs.search;
      host = id.host;
      port = id.port;
      path_prefix = id.path;
      show_out_scope = t.inputs.show_out_scope;
      methods = method_list t.inputs.method;
      status_min = low;
      status_max = high;
      hide_static = t.inputs.hide_static;
    }

unfoldable pub static_extensions : List Bytes
static_extensions =
    codes ".js"
    ∷ codes ".css"
    ∷ codes ".png"
    ∷ codes ".jpg"
    ∷ codes ".jpeg"
    ∷ codes ".gif"
    ∷ codes ".ico"
    ∷ codes ".svg"
    ∷ codes ".woff"
    ∷ codes ".woff2"
    ∷ codes ".ttf"
    ∷ codes ".eot"
    ∷ codes ".map"
    ∷ codes ".webp"
    ∷ codes ".avif"
    ∷ []

has_extension : Bytes → List Bytes → Bool
unfolding has_suffix
has_extension path [] = false
has_extension path (e ∷ es) = has_suffix path e || has_extension path es

unfoldable pub is_static : Bytes → Bool
unfolding has_extension static_extensions
is_static url = has_extension (to_lower (tree_path_of url)) static_extensions

unfoldable pub under_prefix : Bytes → Bytes → Bool
unfolding same has_prefix
under_prefix path [] = true
under_prefix path (c ∷ prefix) = same path (c ∷ prefix) || has_prefix path (c ∷ prefix ++ codes "/")

-- strings.EqualFold(tx.Method, m) for one of the methods
fold_one_of : Bytes → List Bytes → Bool
unfolding same to_lower
fold_one_of m [] = false
fold_one_of m (x ∷ xs) = same (to_lower m) (to_lower x) || fold_one_of m xs

method_passes : List Bytes → Bytes → Bool
unfolding fold_one_of
method_passes [] method = true
method_passes (m ∷ ms) method = fold_one_of method (m ∷ ms)

unfoldable pub matches_filter : Transaction → TransactionFilter → Bool
unfolding same same_int under_prefix method_passes is_static
matches_filter t f =
    (same f.host [] || same t.host f.host)
    && ((same_int f.port (pos 0) || same_int t.port f.port)
        && (under_prefix (tree_path_of t.url) f.path_prefix
            && ((f.show_out_scope || t.in_scope)
                && (method_passes f.methods t.method
                    && ((f.status_min == 0 || leb f.status_min t.status_code)
                        && ((f.status_max == 0 || leb t.status_code f.status_max)
                            && (not f.hide_static || not (is_static t.url))))))))

unfoldable pub is_displayed : ℕ → List Transaction → Bool
is_displayed id [] = false
is_displayed id (t ∷ ts) = t.id == id || is_displayed id ts

-- The function that `watchUpdates` runs for a row.
unfoldable pub watch_update : Transaction → Tab → Tab
unfolding is_displayed current_filter matches_filter add last_id
watch_update tx t =
    if is_displayed tx.id t.displayed
    then t
    else let map' = add tx.host tx.port tx.url t.site_map in
      let shown = tx ∷ t.displayed in
      if matches_filter tx (current_filter t)
      then record t { displayed = shown; cursor = last_id shown; site_map = map' }
      else record t { site_map = map' }

-- `clearHistory`, where the store has cleared its table.
unfoldable pub clear_tab : Tab → Tab
unfolding clear
clear_tab t = record t {
  displayed = [];
  cursor = 0;
  has_more = false;
  site_map = clear t.site_map;
  selected_uid = [];
}

-- `deleteSelectedHost`, where a host is selected and the store has deleted its rows, up to the
-- page that it loads.
unfoldable pub drop_host : NodeId → Tab → Tab
unfolding remove_host host_port_key
drop_host id t = record t {
  displayed = [];
  cursor = 0;
  has_more = true;
  site_map = record t.site_map {
    hosts = remove_host (host_port_key id.host id.port) t.site_map.hosts;
  };
  selected_uid = [];
}
