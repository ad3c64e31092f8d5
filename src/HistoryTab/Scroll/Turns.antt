-- ===== src/HistoryTab/Scroll/Turns.antt =====
-- One turn of scrolling the history tab: a page is asked for, read and delivered, and nothing else
-- happens.
use shiv.Prelude.{
  ◌==◌, length, ℕ, zero, suc, ◌+◌, ◌≡◌, refl, ap, Bool, true, false, not, ◌&&◌, Option, none, some,
  List, [], ◌∷◌, arith,
}
use shiv.Text.{Bytes}
use shiv.Http.Header.{Header}
use shiv.History.{page_size, transactions_page, Transaction, HistoryTable, TransactionFilter}
use shiv.History.Export.{last_id}
use shiv.HistoryTab.{current_filter, Tab}
use shiv.HistoryTab.Loading.{
  needs_filter, fetch_page, load_first_page, load_next_page, is_nil, show_first_page,
  show_next_page,
}
use shiv.HistoryTab.System.{
  first_load_of, deliver_load, fetch_load, step, run, System, Action, near_bottom, fetch, deliver,
}
use shiv.HistoryTab.System.Steps.{next_of, scroll_down-none, scroll_down-some}
use shiv.HistoryTab.Scroll.Pages.{with_page, page_rows}

-- One scroll to the end: the page is asked for, read and delivered.
abbrev pub scrolls : ℕ → List Action
scrolls zero = []
scrolls (suc n) = near_bottom ∷ fetch false 0 ∷ deliver 0 ∷ scrolls n

module _ (like : Bytes → Bytes → Bool) (unmarshal : Bytes → Option Header) (f : TransactionFilter)
    (table : HistoryTable) where
  module _ (marshal : Header → Option Bytes) (stored_time : ℕ → ℕ) (in_scope : Bytes → Bool)
      (updates : List Transaction) where
    -- The system with nothing being loaded.
    unfoldable pub quiet : Tab → System
    quiet t = record { tab = t; store = table; loads = []; updates = updates }

    unfoldable pub runs : List Action → System → System
    unfolding run
    runs = run like unmarshal marshal stored_time in_scope

    pub scroll_further :
        (t : Tab) (actions : List Action)
        → load_next_page t ≡ some (record t { loading_more = true }, next_of t)
        → runs (near_bottom ∷ fetch false 0 ∷ deliver 0 ∷ actions) (quiet t)
          ≡ runs actions (
              quiet (
                show_next_page t.query_id
                  (fetch_page
                    (current_filter t)
                    (transactions_page unmarshal like false t.cursor (current_filter t) table))
                  (record t { loading_more = true })))
    unfolding runs quiet step next_of
    scroll_further t actions e =
        ap
          (λ s.
            run like unmarshal marshal stored_time in_scope actions
              (deliver_load 0 (fetch_load like unmarshal false 0 s)))
          (scroll_down-some (quiet t) (record t { loading_more = true }) (next_of t) e)

    pub scroll_no_further :
        (t : Tab) (actions : List Action)
        → load_next_page t ≡ none
        → runs (near_bottom ∷ fetch false 0 ∷ deliver 0 ∷ actions) (quiet t)
          ≡ runs actions (quiet t)
    unfolding runs quiet step
    scroll_no_further t actions e =
        ap
          (λ s.
            run like unmarshal marshal stored_time in_scope actions
              (deliver_load 0 (fetch_load like unmarshal false 0 s)))
          (scroll_down-none (quiet t) e)

    pub page_shown :
        (t : Tab) (txs : List Transaction)
        → needs_filter (current_filter t) ≡ false
        → show_next_page t.query_id
            (fetch_page (current_filter t) (some txs))
            (record t { loading_more = true })
          ≡ with_page txs t
    unfolding show_next_page fetch_page with_page
    page_shown t txs plain =
        let same : (t.query_id == t.query_id) ≡ true = ground arith in rw (plain, same) refl

    pub first_delivered :
        (t : Tab) (actions : List Action)
        → runs (fetch false 0 ∷ deliver 0 ∷ actions) (first_load_of t (quiet t))
          ≡ runs actions (
              quiet (
                show_first_page
                  (t.query_id + 1)
                  (fetch_page
                    (current_filter t)
                    (transactions_page unmarshal like false 0 (current_filter t) table))
                  (record t { query_id = t.query_id + 1 })))
    unfolding runs quiet step first_load_of load_first_page
    first_delivered t actions = refl

    -- The tab once its first page has been delivered.
    unfoldable pub first_tab : Tab → Tab
    first_tab t = record t {
      query_id = t.query_id + 1;
      loading_more = false;
      displayed = page_rows like unmarshal f table 0;
      has_more =
          not (is_nil (page_rows like unmarshal f table 0))
          && length (page_rows like unmarshal f table 0) == page_size;
      cursor = last_id (page_rows like unmarshal f table 0);
    }

    pub first_shown :
        (t : Tab)
        → needs_filter (current_filter t) ≡ false
        → show_first_page
            (t.query_id + 1)
            (fetch_page (current_filter t) (some (page_rows like unmarshal f table 0)))
            (record t { query_id = t.query_id + 1 })
          ≡ first_tab t
    unfolding show_first_page fetch_page first_tab
    first_shown t plain =
        let same : (t.query_id + 1 == t.query_id + 1) ≡ true = ground arith in rw (plain, same) refl
