-- ===== src/HistoryTab/System.antt =====
-- The history tab of internal/ui/history.go with the store behind it: rows are logged, pages are
-- asked for, read and delivered, and the user acts, in any order.
pub mod Steps
pub mod Paged
pub mod Stale
use shiv.Prelude.{
  if◌then◌else◌, length, get_elem?, set, ℕ, zero, suc, ◌≡◌, Bool, true, false, ◌&&◌, ◌||◌, Option,
  none, some, List, [], ◌∷◌, ◌++◌,
}
use shiv.Text.{Bytes, codes, has_prefix}
use shiv.Http.Header.{Header}
use shiv.HistoryTab.{watch_update, clear_tab, drop_host, Inputs, Tab}
use shiv.HistoryTab.Loading.{
  fetched, fetch_page, load_first_page, load_next_page, show_page, Load, first_load, next_load,
  Fetch, waiting, failed,
}
use shiv.History.{
  holds, transactions_page, clear_history, delete_transactions_by_host_port, proto_or_http, log,
  Transaction, HistoryTable,
}
use shiv.History.Export.{last_id}
use shiv.SiteMap.{parse_node_id, NodeId}

-- `loads` are the pages that goroutines are loading, `updates` is the channel of the store.
pub record System : Type 0 where
  pub tab : Tab
  pub store : HistoryTable
  pub loads : List Load
  pub updates : List Transaction

-- The first flag of an action is an error of the database. `queued` says whether the channel had
-- room for the row. A load is named by its place.
pub data Action : Type 0 where
  log_row : Bool → Bool → Transaction → Action
  take_update : Action
  choose : Inputs → Action
  select_node : Bytes → Action
  filter_hosts : Bytes → Action
  near_bottom : Action
  fetch : Bool → ℕ → Action
  deliver : ℕ → Action
  clear_all : Bool → Action
  delete_selected : Bool → Action

without_nth {ℓ} : {A : Type ℓ} → ℕ → List A → List A
without_nth n [] = []
without_nth zero (x ∷ xs) = xs
without_nth (suc n) (x ∷ xs) = x ∷ without_nth n xs

unfoldable pub first_load_of : Tab → System → System
unfolding load_first_page
first_load_of t s =
    let (t', l) = load_first_page t in record s { tab = t'; loads = s.loads ++ l ∷ [] }

unfoldable pub scroll_down : System → System
unfolding load_next_page
scroll_down s = elim (load_next_page s.tab) [
  | none ↦ s
  | some (t', l) ↦ record s { tab = t'; loads = s.loads ++ l ∷ [] }
]

unfoldable pub take_first : List Transaction → System → System
unfolding watch_update
take_first [] s = s
take_first (tx ∷ rest) s = record s { tab = watch_update tx s.tab; updates = rest }

unfoldable pub is_waiting : Fetch → Bool
is_waiting waiting = true
is_waiting failed = false
is_waiting (fetched txs full_len) = false

-- A page is delivered once it has been read.
unfoldable pub deliver_load : ℕ → System → System
unfolding show_page without_nth is_waiting
deliver_load n s = elim (get_elem? s.loads n) [
  | none ↦ s
  | some l ↦
      if is_waiting l.page
      then s
      else record s { tab = show_page l s.tab; loads = without_nth n s.loads }
]

-- The host that is selected; `none` where no host node is.
selected_host : Bytes → Option NodeId
unfolding parse_node_id has_prefix
selected_host uid = if has_prefix uid (codes "h:") then parse_node_id uid else none

unfoldable pub delete_node : Bool → Option NodeId → System → System
unfolding drop_host delete_transactions_by_host_port first_load_of
delete_node fails none s = s
delete_node true (some id) s = s
delete_node false (some id) s =
    first_load_of (drop_host id s.tab)
      (record s { store = delete_transactions_by_host_port false id.host id.port s.store })

-- What `Log` sends to the channel.
sent : ℕ → Transaction → Transaction
unfolding proto_or_http
sent id t = record t { id = id; proto = proto_or_http t.proto; resp_size = length t.resp_body }

module _ (like : Bytes → Bytes → Bool) (unmarshal : Bytes → Option Header) where
  unfoldable pub fetch_load : Bool → ℕ → System → System
  unfolding fetch_page transactions_page is_waiting
  fetch_load fails n s = elim (get_elem? s.loads n) [
    | none ↦ s
    | some l ↦
        let rows = transactions_page unmarshal like fails l.cursor l.filter s.store in
        if is_waiting l.page
        then record s { loads = set s.loads n (record l { page = fetch_page l.filter rows }) }
        else s
  ]

module _ (marshal : Header → Option Bytes) (stored_time : ℕ → ℕ) where
  unfoldable pub log_transaction : Bool → Bool → Transaction → System → System
  unfolding log sent
  log_transaction fails queued t s =
      let (done, table) = log marshal stored_time fails t s.store in
      record s {
        store = table;
        updates = if done && queued then s.updates ++ sent s.store.next_id t ∷ [] else s.updates;
      }

unfoldable pub set_inputs : (Bytes → Bool) → Inputs → Tab → Tab
set_inputs in_scope inputs t = record t {
  inputs = inputs;
  site_map = record t.site_map {
    scope_filter = if inputs.show_out_scope then none else some in_scope;
  };
}

module _ (like : Bytes → Bytes → Bool) (unmarshal : Bytes → Option Header)
    (marshal : Header → Option Bytes) (stored_time : ℕ → ℕ) (in_scope : Bytes → Bool) where
  unfoldable pub step : Action → System → System
  unfolding log_transaction take_first first_load_of set_inputs scroll_down fetch_load deliver_load
      clear_tab clear_history delete_node selected_host
  step (log_row fails queued t) s = log_transaction marshal stored_time fails queued t s
  step take_update s = take_first s.updates s
  step (choose inputs) s = first_load_of (set_inputs in_scope inputs s.tab) s
  step (select_node uid) s = first_load_of (record s.tab { selected_uid = uid }) s
  step (filter_hosts text) s = record s {
    tab = record s.tab { site_map = record s.tab.site_map { text_filter = text } };
  }
  step near_bottom s = scroll_down s
  step (fetch fails n) s = fetch_load like unmarshal fails n s
  step (deliver n) s = deliver_load n s
  step (clear_all true) s = s
  step (clear_all false) s = record s { tab = clear_tab s.tab; store = clear_history false s.store }
  step (delete_selected fails) s = delete_node fails (selected_host s.tab.selected_uid) s

  unfoldable pub run : List Action → System → System
  unfolding step
  run [] s = s
  run (a ∷ actions) s = run actions (step a s)

-- What holds in every state: the cursor is the id of the last row shown, 0 if there is none, and
-- while `loadingMore` is set a next page is being loaded, so that it is reset.
unfoldable pub is_next : Load → Bool
is_next l = elim l.kind [ first_load ↦ false | next_load ↦ true ]

unfoldable pub has_next : List Load → Bool
unfolding is_next
has_next [] = false
has_next (l ∷ ls) = is_next l || has_next ls

pub record IsPaged (s : System) : Type 0 where
  pub cursor_last : s.tab.cursor ≡ last_id s.tab.displayed
  pub loads_next : s.tab.loading_more ≡ true → has_next s.loads ≡ true
