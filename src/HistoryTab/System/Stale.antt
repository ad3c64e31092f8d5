-- ===== src/HistoryTab/System/Stale.antt =====
-- A page of the history tab that is on its way while the history is cleared: `clearHistory` of
-- internal/ui/history.go leaves the id of the query as it is, so that the page is not dropped.
use shiv.Prelude.{ℕ, ◌+◌, ◌≡◌, refl, ap, ◌∙◌, Bool, false, Option, List, [], ◌∷◌, arith}
use shiv.Text.{Bytes}
use shiv.Http.Header.{Header}
use shiv.History.{transactions_page, Transaction}
use shiv.HistoryTab.{current_filter, clear_tab, Inputs, Tab}
use shiv.HistoryTab.Loading.{
  fetched, fetch_page, load_first_page, show_first_page, show_page, first_load,
}
use shiv.HistoryTab.System.{
  choose, fetch, clear_all, deliver, first_load_of, fetch_load, deliver_load, is_waiting,
  set_inputs, step, run, System,
}

module _ (like : Bytes → Bytes → Bool) (unmarshal : Bytes → Option Header)
    (marshal : Header → Option Bytes) (stored_time : ℕ → ℕ) (in_scope : Bytes → Bool) where
  -- What the tab shows of the page, once it has been cleared.
  shown_late :
      (t : Tab) (txs : List Transaction) (n : ℕ)
      → (show_first_page
          (t.query_id + 1)
          (fetched txs n)
          (clear_tab (record t { query_id = t.query_id + 1 }))).displayed
        ≡ txs
  unfolding show_first_page clear_tab
  shown_late t txs n = ground arith

  page_read : Tab → System → List Transaction → ℕ → System
  page_read t s txs n = record {
    tab = record t { query_id = t.query_id + 1 };
    store = s.store;
    loads =
        record {
          kind = first_load;
          local_id = t.query_id + 1;
          cursor = 0;
          filter = current_filter t;
          page = fetched txs n;
        }
        ∷ [];
    updates = s.updates;
  }

  page_read-lem :
      (t : Tab) (s : System) (txs : List Transaction) (n : ℕ)
      → s.loads ≡ []
      → fetch_page
          (current_filter t)
          (transactions_page unmarshal like false 0 (current_filter t) s.store)
        ≡ fetched txs n
      → fetch_load like unmarshal false 0 (first_load_of t s) ≡ page_read t s txs n
  unfolding page_read first_load_of load_first_page fetch_load is_waiting
  page_read-lem t s txs n none_yet page =
      ap (λ l. fetch_load like unmarshal false 0 (first_load_of t (record s { loads = l })))
        none_yet
      ∙ ap
          (λ p. record {
            tab = record t { query_id = t.query_id + 1 };
            store = s.store;
            loads =
                record {
                  kind = first_load;
                  local_id = t.query_id + 1;
                  cursor = 0;
                  filter = current_filter t;
                  page = p;
                }
                ∷ [];
            updates = s.updates;
          })
          page

  -- If the user changes an input of a tab that loads nothing, the first page is read, and the
  -- history is cleared before the page is delivered, then the tab shows the rows of that page,
  -- although the store has no row any more.
  pub cleared-displayed :
      (s : System) (inputs : Inputs) (txs : List Transaction) (n : ℕ)
      → s.loads ≡ []
      → fetch_page (current_filter (set_inputs in_scope inputs s.tab)) (
          transactions_page unmarshal like false 0
            (current_filter (set_inputs in_scope inputs s.tab))
            s.store)
        ≡ fetched txs n
      → (let s' =
            run like unmarshal marshal stored_time in_scope
              (choose inputs ∷ fetch false 0 ∷ clear_all false ∷ deliver 0 ∷ [])
              s in
          (s'.tab.displayed ≡ txs) × (s'.store.rows ≡ []) × (s'.loads ≡ []))
  unfolding run step
  cleared-displayed s inputs txs n none_yet page =
      let t = set_inputs in_scope inputs s.tab in
      rw (page_read-lem t s txs n none_yet page)
        (unfold page_read deliver_load show_page is_waiting in (shown_late t txs n, refl, refl))
