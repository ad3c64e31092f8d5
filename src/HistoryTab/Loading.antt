-- ===== src/HistoryTab/Loading.antt =====
-- internal/ui/history.go: fetchPage, loadFirstPage and loadNextPage, with what is done before the
-- goroutine, in it, and when its page is delivered.
use shiv.Prelude.{
  ◌==◌, if◌then◌else◌, length, ℕ, ◌+◌, Bool, true, false, not, ◌&&◌, ◌||◌, Option, none, some, List,
  [], ◌∷◌, ◌++◌,
}
use shiv.Text.{same}
use shiv.History.{page_size, select, Transaction, TransactionFilter}
use shiv.History.Export.{last_id}
use shiv.HistoryTab.{current_filter, matches_filter, Tab}

-- A page that a goroutine is to load: `local_id` and `cursor` as they were when it was started.
-- `page` is the result, with the number of rows before the tab's own filter: `none` is an error.
pub data LoadKind : Type 0 where
  first_load next_load : LoadKind

pub data Fetch : Type 0 where
  waiting failed : Fetch
  fetched : List Transaction → ℕ → Fetch

pub record Load : Type 0 where
  pub kind : LoadKind
  pub local_id : ℕ
  pub cursor : ℕ
  pub filter : TransactionFilter
  pub page : Fetch

unfoldable pub needs_filter : TransactionFilter → Bool
unfolding same
needs_filter f = not (same f.path_prefix []) || f.hide_static

-- `fetchPage`, on what the store returns.
unfoldable pub fetch_page : TransactionFilter → Option (List Transaction) → Fetch
unfolding needs_filter matches_filter
fetch_page f none = failed
fetch_page f (some txs) =
    fetched (if needs_filter f then select (λ t. matches_filter t f) txs else txs) (length txs)

-- The part of `loadFirstPage` before its goroutine.
unfoldable pub load_first_page : Tab → Tab × Load
unfolding current_filter
load_first_page t =
    let id = t.query_id + 1 in
    (
      record t { query_id = id },
      record {
        kind = first_load;
        local_id = id;
        cursor = 0;
        filter = current_filter t;
        page = waiting;
      },
    )

-- The part of `loadNextPage` before its goroutine; `none` where it returns at once.
unfoldable pub load_next_page : Tab → Option (Tab × Load)
unfolding current_filter
load_next_page t =
    if t.loading_more || (not t.has_more || t.cursor == 0)
    then none
    else some (
      record t { loading_more = true },
      record {
        kind = next_load;
        local_id = t.query_id;
        cursor = t.cursor;
        filter = current_filter t;
        page = waiting;
      },
    )

unfoldable pub is_nil {ℓ} : {A : Type ℓ} → List A → Bool
is_nil [] = true
is_nil (x ∷ xs) = false

-- What the two goroutines do with a page.
unfoldable pub show_first_page : ℕ → Fetch → Tab → Tab
unfolding is_nil last_id
show_first_page local_id waiting t = t
show_first_page local_id failed t = t
show_first_page local_id (fetched txs full_len) t =
    if local_id == t.query_id
    then record t {
      loading_more = false;
      displayed = txs;
      has_more = not (is_nil txs) && full_len == page_size;
      cursor = last_id txs;
    }
    else t

unfoldable pub show_next_page : ℕ → Fetch → Tab → Tab
unfolding is_nil last_id
show_next_page local_id waiting t = t
show_next_page local_id failed t = record t { loading_more = false }
show_next_page local_id (fetched txs full_len) t =
    if local_id == t.query_id
    then record t {
      displayed = t.displayed ++ txs;
      has_more = full_len == page_size;
      cursor = if is_nil txs then t.cursor else last_id txs;
      loading_more = false;
    }
    else record t { loading_more = false }

unfoldable pub show_page : Load → Tab → Tab
unfolding show_first_page show_next_page
show_page l t = elim l.kind [
  | first_load ↦ show_first_page l.local_id l.page t
  | next_load ↦ show_next_page l.local_id l.page t
]
