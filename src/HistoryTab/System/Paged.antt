-- ===== src/HistoryTab/System/Paged.antt =====
-- The invariant of the history tab, over every order of its steps.
use shiv.Prelude.{
  Bool-cases, Option-cases, get_elem?, ℕ, refl, ◌∙◌, inl, inr, Bool, true, false, Option, List, [],
  ◌∷◌,
}
use shiv.Text.{Bytes}
use shiv.Http.Header.{Header}
use shiv.HistoryTab.{clear_tab}
use shiv.HistoryTab.Loading.{fetch_page}
use shiv.History.{transactions_page}
use shiv.History.Export.{last_id}
use shiv.HistoryTab.System.{
  log_row, take_update, choose, select_node, filter_hosts, near_bottom, fetch, deliver, clear_all,
  delete_selected, is_waiting, selected_host, fetch_load, log_transaction, set_inputs, step, run,
  is_next, System, IsPaged, Action,
}
use shiv.HistoryTab.System.Steps.{
  has_next-set, first_load_of-IsPaged, scroll_down-IsPaged, take_first-IsPaged,
  deliver_load-IsPaged, delete_node-IsPaged,
}

module _ (like : Bytes → Bytes → Bool) (unmarshal : Bytes → Option Header)
    (marshal : Header → Option Bytes) (stored_time : ℕ → ℕ) (in_scope : Bytes → Bool) where
  fetch_load-IsPaged :
      (fails : Bool) (n : ℕ) (s : System)
      → IsPaged s
      → IsPaged (fetch_load like unmarshal fails n s)
  unfolding fetch_load
  fetch_load-IsPaged fails n s h = elim (Option-cases (get_elem? s.loads n)) [
    | inl gone ↦ rw (gone, fetch_load) h
    | inr (l, at) ↦ elim (Bool-cases (is_waiting l.page)) [
      | inl waits ↦
          let rows = transactions_page unmarshal like fails l.cursor l.filter s.store in
          let l' = record l { page = fetch_page l.filter rows } in
          rw (at, fetch_load)
            (rw waits (record {
              cursor_last = h.cursor_last;
              loads_next =
                  λ e. has_next-set s.loads n l l' at (unfold is_next in refl) ∙ h.loads_next e;
            }))
      | inr read ↦ rw (at, fetch_load) (rw read h)
    ]
  ]

  pub step-IsPaged :
      (a : Action) (s : System)
      → IsPaged s
      → IsPaged (step like unmarshal marshal stored_time in_scope a s)
  unfolding step
  step-IsPaged (log_row fails queued t) s h =
      unfold log_transaction in record { cursor_last = h.cursor_last; loads_next = h.loads_next }
  step-IsPaged take_update s h = take_first-IsPaged s.updates s h
  step-IsPaged (choose inputs) s h =
      first_load_of-IsPaged (set_inputs in_scope inputs s.tab) s
        (unfold set_inputs in h.cursor_last) (unfold set_inputs in h.loads_next)
  step-IsPaged (select_node uid) s h =
      first_load_of-IsPaged (record s.tab { selected_uid = uid }) s h.cursor_last h.loads_next
  step-IsPaged (filter_hosts text) s h = record {
    cursor_last = h.cursor_last;
    loads_next = h.loads_next;
  }
  step-IsPaged near_bottom s h = scroll_down-IsPaged s h
  step-IsPaged (fetch fails n) s h = fetch_load-IsPaged fails n s h
  step-IsPaged (deliver n) s h = deliver_load-IsPaged n s h
  step-IsPaged (clear_all true) s h = h
  step-IsPaged (clear_all false) s h =
      unfold clear_tab last_id in record { cursor_last = refl; loads_next = h.loads_next }
  step-IsPaged (delete_selected fails) s h =
      delete_node-IsPaged fails (selected_host s.tab.selected_uid) s h

  -- In every order of logging, live rows, choices of the user, pages that are asked for, read and
  -- delivered late or with an error, clears and deletes, the cursor stays the id of the last row
  -- shown, or 0, and while `loadingMore` is set a next page is on its way.
  pub run-IsPaged :
      (actions : List Action) (s : System)
      → IsPaged s
      → IsPaged (run like unmarshal marshal stored_time in_scope actions s)
  unfolding run
  run-IsPaged [] s h = h
  run-IsPaged (a ∷ actions) s h =
      run-IsPaged actions (step like unmarshal marshal stored_time in_scope a s)
        (step-IsPaged a s h)
