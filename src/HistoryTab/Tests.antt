-- ===== src/HistoryTab/Tests.antt =====
-- History tabs on small tables, and one on a page of which every row is hidden.
use shiv.Prelude.{
  take, All, ℕ, zero, suc, ◌+◌, ◌*◌, ◌≡◌, refl, Bool, true, false, Option, some, List, [], ◌∷◌, map,
  arith,
}
use shiv.Prelude.Int.{pos}
use shiv.Text.{replace_all, Bytes, codes, cut, fields, to_lower}
use shiv.SiteMap.{tree_path_of}
use shiv.Format.{path_of}
use shiv.Http.Header.{Header}
use shiv.History.Export.{last_id}
use shiv.History.{
  TransactionFilter, page_size, matches_filter, select, without_bodies, transactions_page,
  Transaction, Row, HistoryTable,
}
use shiv.HistoryTab
use shiv.HistoryTab.{new_tab, current_filter, any_method, only, any_status, Inputs, Tab}
use shiv.HistoryTab.Csrf.{html_attr_escape, escaped, html_attr_escape-escaped}
use shiv.Text.Split.{Lacks}
use shiv.HistoryTab.Loading.{needs_filter, fetch_page, load_first_page, show_page}
use shiv.HistoryTab.Scroll.{scrolled-displayed}
use shiv.HistoryTab.Scroll.Turns.{scrolls}
use shiv.HistoryTab.Scroll.Stuck.{run-scrolls-stuck}
use shiv.HistoryTab.System.{
  set_inputs, log_row, take_update, choose, near_bottom, fetch, deliver, clear_all, run, System,
  IsPaged, Action,
}
use shiv.HistoryTab.System.Paged.{run-IsPaged}
use shiv.HistoryTab.System.Stale.{cleared-displayed}

abbrev inputs : Inputs
inputs = record {
  search = [];
  show_out_scope = true;
  hide_static = false;
  method = any_method;
  status = any_status;
}

abbrev script : ℕ → Transaction
script n = record {
  id = n;
  timestamp = 0;
  host = codes "a.test";
  port = pos 443;
  method = codes "GET";
  url = codes "https://a.test/x.js";
  proto = codes "HTTP/1.1";
  req_headers = [];
  req_body = [];
  status_code = 200;
  resp_headers = [];
  resp_body = [];
  resp_size = 0;
  duration_ms = 1;
  tls = true;
  in_scope = true;
}

abbrev row : ℕ → Row
row n = record { entry = script n; req_headers_text = []; resp_headers_text = [] }

abbrev any_text : Bytes → Bytes → Bool
any_text s pattern = true

abbrev no_header : Bytes → Option Header
no_header s = some []

abbrev no_text : Header → Option Bytes
no_text h = some []

abbrev everywhere : Bytes → Bool
everywhere s = true

abbrev same_time : ℕ → ℕ
same_time n = n

abbrev two_rows : HistoryTable
two_rows = record { rows = row 2 ∷ row 1 ∷ []; next_id = 3 }

abbrev start : System
start = record { tab = new_tab inputs; store = two_rows; loads = []; updates = [] }

abbrev actions : List Action
actions =
    log_row false true (script 0)
    ∷ choose inputs
    ∷ fetch false 0
    ∷ take_update
    ∷ deliver 0
    ∷ near_bottom
    ∷ clear_all false
    ∷ []

start-IsPaged : IsPaged start
unfolding new_tab last_id
start-IsPaged = record { cursor_last = refl; loads_next = λ e. cc }

run-IsPaged_example : IsPaged (run any_text no_header no_text same_time everywhere actions start)
run-IsPaged_example =
    run-IsPaged any_text no_header no_text same_time everywhere actions start start-IsPaged

html_attr_escape-escaped_example :
    (html_attr_escape (codes "a\"b&c") ≡ escaped (codes "a\"b&c"))
    × Lacks b'"' (html_attr_escape (codes "a\"b&c"))
    × Lacks b'<' (html_attr_escape (codes "a\"b&c"))
    × Lacks b'>' (html_attr_escape (codes "a\"b&c"))
html_attr_escape-escaped_example = html_attr_escape-escaped (codes "a\"b&c")

quote_escaped : html_attr_escape (codes "a\"b&c") ≡ codes "a&quot;b&amp;c"
unfolding html_attr_escape replace_all
quote_escaped = refl

abbrev whole_filter : TransactionFilter
whole_filter = current_filter (set_inputs everywhere inputs start.tab)

whole_filter-plain : needs_filter whole_filter ≡ false
unfolding current_filter set_inputs new_tab needs_filter
whole_filter-plain = refl

scrolled-displayed_example :
    (run any_text no_header no_text same_time everywhere
      (choose inputs ∷ fetch false 0 ∷ deliver 0 ∷ scrolls 1)
      start).tab.displayed
    ≡ map (without_bodies no_header) (
        take
          (page_size + 1 * page_size)
          (select (matches_filter any_text whole_filter) two_rows.rows))
scrolled-displayed_example =
    scrolled-displayed any_text no_header whole_filter two_rows no_text same_time everywhere start
      inputs 1 refl refl refl whole_filter-plain
      (omega arith, (omega arith, tt), (omega arith, tt, tt))

-- Both rows are shown.
two_shown :
    (run any_text no_header no_text same_time everywhere
      (choose inputs ∷ fetch false 0 ∷ deliver 0 ∷ [])
      start).tab.displayed
    ≡ script 2 ∷ script 1 ∷ []
unfolding run new_tab current_filter fetch_page transactions_page load_first_page show_page fields
two_shown = refl

cleared-displayed_example :
    (let s' =
        run any_text no_header no_text same_time everywhere
          (choose inputs ∷ fetch false 0 ∷ clear_all false ∷ deliver 0 ∷ [])
          start in
      (s'.tab.displayed ≡ script 2 ∷ script 1 ∷ []) × (s'.store.rows ≡ []) × (s'.loads ≡ []))
unfolding new_tab set_inputs current_filter fetch_page transactions_page fields
cleared-displayed_example =
    cleared-displayed any_text no_header no_text same_time everywhere start inputs
      (script 2 ∷ script 1 ∷ []) 2 refl refl

-- A hundred scripts, while static files are hidden.
abbrev scripts : ℕ → List Transaction
scripts zero = []
scripts (suc n) = script (suc n) ∷ scripts n

abbrev hidden : System
hidden = record {
  tab = record (new_tab (record inputs { hide_static = true })) {
    displayed = script 101 ∷ [];
    cursor = 101;
  };
  store = record { rows = map (λ t. row t.id) (scripts 100); next_id = 102 };
  loads = [];
  updates = [];
}

abbrev hidden_filter : TransactionFilter
hidden_filter = current_filter hidden.tab

script_hidden : (n : ℕ) → HistoryTab.matches_filter (script n) hidden_filter ≡ false
unfolding HistoryTab.matches_filter current_filter new_tab tree_path_of cut path_of
script_hidden n = refl

scripts_hidden : (n : ℕ) → All (λ t. HistoryTab.matches_filter t hidden_filter ≡ false) (scripts n)
scripts_hidden zero = tt
scripts_hidden (suc n) = (script_hidden (suc n), scripts_hidden n)

next_page_hidden :
    transactions_page no_header any_text false hidden.tab.cursor hidden_filter hidden.store
    ≡ some (scripts 100)
unfolding transactions_page current_filter new_tab fields to_lower
next_page_hidden = refl

hidden_tab :
    (hidden.tab.loading_more ≡ false)
    × (hidden.tab.has_more ≡ true)
    × (needs_filter hidden_filter ≡ true)
unfolding new_tab current_filter needs_filter
hidden_tab = (refl, refl, refl)

run-scrolls-stuck_example :
    run any_text no_header no_text same_time everywhere (scrolls 3) hidden ≡ hidden
run-scrolls-stuck_example =
    run-scrolls-stuck any_text no_header no_text same_time everywhere hidden (scripts 100) 3 refl
      hidden_tab.0 hidden_tab.1 (omega arith) hidden_tab.2 next_page_hidden refl
      (scripts_hidden 100)
