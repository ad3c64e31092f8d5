-- ===== src/HistoryTab/Scroll/Stuck.antt =====
-- Where the tab's own filter, which works on a page once it has been read, takes out a whole page.
use shiv.Prelude.{
  ◌==◌, length, All, ℕ, zero, suc, ◌<◌, ◌≡◌, refl, sym, ap, ◌∙◌, Bool, true, false, not, ◌||◌,
  Option, some, List, [], ◌∷◌, append-nil, arith,
}
use shiv.Text.{Bytes}
use shiv.Http.Header.{Header}
use shiv.HistoryTab.{current_filter, matches_filter, Tab}
use shiv.HistoryTab.Loading.{needs_filter, fetch_page, is_nil, show_next_page}
use shiv.HistoryTab.System.{run, System}
use shiv.HistoryTab.System.Steps.{load_next_page_more}
use shiv.HistoryTab.Scroll.Turns.{scrolls, quiet, runs, scroll_further}
use shiv.History.{page_size, select, transactions_page, Transaction}

select_none {ℓ} :
    {A : Type ℓ} (p : A → Bool) (xs : List A) → All (λ (x : A). p x ≡ false) xs → select p xs ≡ []
select_none p [] h = refl
select_none p (x ∷ xs) h = ground (arith, select_none p xs h.1)

ready_to_load :
    (busy more : Bool) (cursor : ℕ)
    → busy ≡ false
    → more ≡ true
    → 0 < cursor
    → (busy || (not more || cursor == 0)) ≡ false
ready_to_load busy more cursor a b c = ground arith

module _ (like : Bytes → Bytes → Bool) (unmarshal : Bytes → Option Header)
    (marshal : Header → Option Bytes) (stored_time : ℕ → ℕ) (in_scope : Bytes → Bool) where
  empty_page :
      (t : Tab) (txs : List Transaction)
      → needs_filter (current_filter t) ≡ true
      → All (λ x. matches_filter x (current_filter t) ≡ false) txs
      → length txs ≡ page_size
      → t.loading_more ≡ false
      → t.has_more ≡ true
      → show_next_page t.query_id
          (fetch_page (current_filter t) (some txs))
          (record t { loading_more = true })
        ≡ t
  unfolding show_next_page fetch_page is_nil
  empty_page t txs own none_pass size idle more =
      let f = current_filter t in
      let same : (t.query_id == t.query_id) ≡ true = ground arith in
      let empty = select_none (λ x. matches_filter x f) txs none_pass in
      let full : (length txs == page_size) ≡ true = ground arith in
      rw (own, same, empty, full)
        (ap (λ d. record t { displayed = d; has_more = true; loading_more = false })
            (append-nil t.displayed)
          ∙ ap (λ b. record t { has_more = b; loading_more = false }) (sym more)
          ∙ ap (λ b. record t { loading_more = b }) (sym idle))

  scroll_again :
      (s : System) (n : ℕ)
      → (s.tab.loading_more || (not s.tab.has_more || s.tab.cursor == 0)) ≡ false
      → run like unmarshal marshal stored_time in_scope (scrolls (suc n)) (record s { loads = [] })
        ≡ run like unmarshal marshal stored_time in_scope (scrolls n) (record s {
          tab =
              show_next_page s.tab.query_id
                (fetch_page (current_filter s.tab) (
                  transactions_page unmarshal like false s.tab.cursor
                    (current_filter s.tab)
                    s.store))
                (record s.tab { loading_more = true });
          loads = [];
        })
  unfolding runs quiet
  scroll_again s n ready =
      scroll_further like unmarshal (current_filter s.tab) s.store marshal stored_time in_scope
        s.updates s.tab (scrolls n) (load_next_page_more s.tab ready)

  -- If the next page is full, and the filter by path or file type that the tab applies to it lets
  -- no row of it through, then however often the user scrolls to the end, and although more rows
  -- may match behind that page, the tab stays as it is and asks for the same page again.
  pub run-scrolls-stuck :
      (s : System) (txs : List Transaction) (n : ℕ)
      → s.loads ≡ []
      → s.tab.loading_more ≡ false
      → s.tab.has_more ≡ true
      → 0 < s.tab.cursor
      → needs_filter (current_filter s.tab) ≡ true
      → transactions_page unmarshal like false s.tab.cursor (current_filter s.tab) s.store
        ≡ some txs
      → length txs ≡ page_size
      → All (λ t. matches_filter t (current_filter s.tab) ≡ false) txs
      → run like unmarshal marshal stored_time in_scope (scrolls n) s ≡ s
  unfolding run
  run-scrolls-stuck s txs zero loads idle more positive own page size none_pass = refl
  run-scrolls-stuck s txs (suc n) loads idle more positive own page size none_pass =
      let t = s.tab in
      let here : s ≡ record s { loads = [] } = ap (λ l. record s { loads = l }) loads in
      let ready : (t.loading_more || (not t.has_more || t.cursor == 0)) ≡ false =
        ready_to_load t.loading_more t.has_more t.cursor idle more positive in
      ap (run like unmarshal marshal stored_time in_scope (scrolls (suc n))) here
      ∙ scroll_again s n ready
      ∙ ap
          (λ p. run like unmarshal marshal stored_time in_scope (scrolls n) (record s {
            tab =
                show_next_page t.query_id (fetch_page (current_filter t) p)
                  (record t { loading_more = true });
            loads = [];
          }))
          page
      ∙ ap
          (λ u.
            run like unmarshal marshal stored_time in_scope (scrolls n)
              (record s { tab = u; loads = [] }))
          (empty_page t txs own none_pass size idle more)
      ∙ ap (run like unmarshal marshal stored_time in_scope (scrolls n)) (sym here)
      ∙ run-scrolls-stuck s txs n loads idle more positive own page size none_pass
