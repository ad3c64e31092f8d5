-- ===== src/HistoryTab/Scroll.antt =====
-- A history tab that is scrolled while nothing else happens shows the rows page by page.
pub mod Stuck
pub mod Turns
mod Pages
use shiv.Prelude.{
  ◌==◌, length, take, ℕ, zero, suc, ◌+◌, ◌*◌, ◌≤◌, ◌<◌, ◌≡◌, refl, ap, ◌∙◌, subst, inl, inr, Bool,
  true, false, not, ◌&&◌, ◌||◌, Option, none, some, List, [], ◌∷◌, map, arith,
}
use shiv.Text.{Bytes, same}
use shiv.Http.Header.{Header}
use shiv.History.{
  page_size, select, is_before, matches_filter, without_bodies, transactions_page, Transaction,
  HistoryTable, TransactionFilter,
}
use shiv.History.Export.{last_id}
use shiv.History.Paging.{IsFalling, select_all, first_page}
use shiv.HistoryTab.{current_filter, Inputs, Tab}
use shiv.HistoryTab.Loading.{
  needs_filter, fetch_page, load_first_page, load_next_page, is_nil, show_first_page,
  show_next_page,
}
use shiv.HistoryTab.System.{
  first_load_of, deliver_load, fetch_load, set_inputs, step, run, System, Action, choose,
  near_bottom, fetch, deliver,
}
use shiv.HistoryTab.System.Steps.{
  next_of, load_next_page_more, load_next_page_done, scroll_down-none, scroll_down-some,
}
use shiv.HistoryTab.Scroll.Pages.{
  take_end, with_page, matching, pages, IsShowing, page_behind, cursor_behind, page_rows,
  page_rows-more, with_page-IsShowing,
}
use shiv.HistoryTab.Scroll.Turns.{
  scrolls, quiet, runs, scroll_further, scroll_no_further, page_shown, first_delivered, first_tab,
  first_shown,
}

full_page :
    (txs : List Transaction)
    → (length txs == page_size) ≡ true
    → (not (is_nil txs) && length txs == page_size) ≡ true
unfolding is_nil
full_page [] h = ground arith
full_page (t ∷ txs) h = h

part_page :
    (txs : List Transaction)
    → (length txs == page_size) ≡ false
    → (not (is_nil txs) && length txs == page_size) ≡ false
part_page txs h = ground arith

module _ (like : Bytes → Bytes → Bool) (unmarshal : Bytes → Option Header) (f : TransactionFilter)
    (table : HistoryTable) where
  module _ (marshal : Header → Option Bytes) (stored_time : ℕ → ℕ) (in_scope : Bytes → Bool)
      (updates : List Transaction) where
    abbrev go : List Action → System → System
    go = runs like unmarshal f table marshal stored_time in_scope updates

    abbrev at_rest : Tab → System
    at_rest = quiet like unmarshal f table marshal stored_time in_scope updates

    module _ (falls : IsFalling table.rows) (plain : needs_filter f ≡ false) where
      scroll_on :
          (k : ℕ) (t : Tab) (actions : List Action)
          → 0 < k
          → IsShowing like unmarshal f table k t
          → t.has_more ≡ true
          → k ≤ length (matching like unmarshal f table)
          → go (near_bottom ∷ fetch false 0 ∷ deliver 0 ∷ actions) (at_rest t)
            ≡ go actions (at_rest (with_page (page_rows like unmarshal f table k) t))
      scroll_on k t actions some_shown h more le =
          let at : t.cursor ≡ last_id (pages like unmarshal f table k) =
            h.at_last ∙ ap last_id h.shown in
          let (positive, behind) = cursor_behind like unmarshal f table k falls some_shown le in
          let ready : (t.loading_more || (not t.has_more || t.cursor == 0)) ≡ false =
            let idle = h.idle in ground arith in
          let page : transactions_page unmarshal like false t.cursor (current_filter t) table
              ≡ some (page_rows like unmarshal f table k) =
            ap (λ c. transactions_page unmarshal like false c (current_filter t) table) at
            ∙ ap
                (λ g.
                  transactions_page unmarshal like false (last_id (pages like unmarshal f table k))
                    g table)
                h.filter_is
            ∙ unfold page_rows in
              page_behind like unmarshal f table k (last_id (pages like unmarshal f table k))
                behind in
          let plain_here : needs_filter (current_filter t) ≡ false =
            ap needs_filter h.filter_is ∙ plain in
          scroll_further like unmarshal f table marshal stored_time in_scope updates t actions
            (load_next_page_more t ready)
          ∙ ap
              (λ p. go actions (
                at_rest (
                  show_next_page t.query_id (fetch_page (current_filter t) p)
                    (record t { loading_more = true }))))
              page
          ∙ ap (λ u. go actions (at_rest u))
              (page_shown like unmarshal f table marshal stored_time in_scope updates t
                (page_rows like unmarshal f table k) plain_here)

      -- Where all rows are shown, as many as there are count as the next page too.
      all_shown :
          (k : ℕ) (t : Tab)
          → IsShowing like unmarshal f table k t
          → t.has_more ≡ false
          → length (matching like unmarshal f table) ≤ k
          → IsShowing like unmarshal f table (k + page_size) t
      unfolding pages
      all_shown k t h no_more le = record {
        shown =
            h.shown
            ∙ ap (map (without_bodies unmarshal))
                (take_end k page_size (matching like unmarshal f table) le);
        at_last = h.at_last;
        idle = h.idle;
        more = inr (no_more, omega arith);
        filter_is = h.filter_is;
      }

      scrolls-IsShowing :
          (n k : ℕ) (t : Tab)
          → 0 < k
          → IsShowing like unmarshal f table k t
          → (t' : Tab) × (go (scrolls n) (at_rest t) ≡ at_rest t')
            × IsShowing like unmarshal f table (k + n * page_size) t'
      scrolls-IsShowing zero k t some_shown h =
          let e : k ≡ k + 0 * page_size = omega arith in
          (t, unfold runs in refl, subst (λ m. IsShowing like unmarshal f table m t) e h)
      scrolls-IsShowing (suc n) k t some_shown h =
          let e : k + page_size + n * page_size ≡ k + suc n * page_size = omega arith in
          elim h.more [
            | inl (more, le) ↦
                let t1 = with_page (page_rows like unmarshal f table k) t in
                let (t', r, h') =
                  scrolls-IsShowing n (k + page_size) t1 (omega arith)
                    (with_page-IsShowing like unmarshal f table k t h le) in
                (
                  t',
                  scroll_on k t (scrolls n) some_shown h more le ∙ r,
                  subst (λ m. IsShowing like unmarshal f table m t') e h',
                )
            | inr (no_more, le) ↦
                let (t', r, h') =
                  scrolls-IsShowing n (k + page_size) t (omega arith)
                    (all_shown k t h no_more le) in
                let stays : (t.loading_more || (not t.has_more || t.cursor == 0)) ≡ true =
                  let idle = h.idle in ground arith in
                (
                  t',
                  scroll_no_further like unmarshal f table marshal stored_time in_scope updates t
                        (scrolls n) (load_next_page_done t stays)
                      ∙ r,
                  subst (λ m. IsShowing like unmarshal f table m t') e h',
                )
          ]

      first_tab-IsShowing :
          (t : Tab)
          → current_filter t ≡ f
          → IsShowing like unmarshal f table
              (0 + page_size)
              (first_tab like unmarshal f table marshal stored_time in_scope updates t)
      unfolding first_tab
      first_tab-IsShowing t filter_here = record {
        shown = unfold pages page_rows in refl;
        at_last = refl;
        idle = refl;
        more = elim (page_rows-more like unmarshal f table 0 (omega arith)) [
          | inl (full, le) ↦ inl (full_page (page_rows like unmarshal f table 0) full, le)
          | inr (few, le) ↦ inr (part_page (page_rows like unmarshal f table 0) few, le)
        ];
        filter_is = unfold current_filter in filter_here;
      }

      first_page_shown :
          (t : Tab) (actions : List Action)
          → current_filter t ≡ f
          → go (fetch false 0 ∷ deliver 0 ∷ actions) (first_load_of t (at_rest t))
            ≡ go actions
                (at_rest (first_tab like unmarshal f table marshal stored_time in_scope updates t))
      first_page_shown t actions filter_here =
          let plain_here : needs_filter (current_filter t) ≡ false =
            ap needs_filter filter_here ∙ plain in
          let page : transactions_page unmarshal like false 0 (current_filter t) table
              ≡ some (page_rows like unmarshal f table 0) =
            ap (λ g. transactions_page unmarshal like false 0 g table) filter_here
            ∙ unfold page_rows in
              page_behind like unmarshal f table 0 0 (
                select_all (is_before 0) (matching like unmarshal f table)
                  (first_page (matching like unmarshal f table))) in
          first_delivered like unmarshal f table marshal stored_time in_scope updates t actions
          ∙ ap
              (λ p. go actions (
                at_rest (
                  show_first_page (t.query_id + 1) (fetch_page (current_filter t) p)
                    (record t { query_id = t.query_id + 1 }))))
              page
          ∙ ap (λ u. go actions (at_rest u))
              (first_shown like unmarshal f table marshal stored_time in_scope updates t plain_here)

  first_load_quiet :
      (s : System) (t : Tab)
      → s.store ≡ table
      → s.loads ≡ []
      → first_load_of t s
        ≡ first_load_of t (record { tab = t; store = table; loads = []; updates = s.updates })
  unfolding first_load_of
  first_load_quiet s t store loads =
      ap (λ x. first_load_of t (record s { store = x })) store
      ∙ ap (λ x. first_load_of t (record s { store = table; loads = x })) loads

  -- A tab of which the user changes the inputs, and which is then scrolled to its end `n` times
  -- while no row comes in and the database makes no error, shows the rows that match the filter,
  -- newest first and each once, as many as `n` and one more pages hold. The filter is one that the
  -- database applies as a whole, and nothing was being loaded.
  pub scrolled-displayed :
      (marshal : Header → Option Bytes) (stored_time : ℕ → ℕ) (in_scope : Bytes → Bool) (s : System)
      (inputs : Inputs) (n : ℕ)
      → s.store ≡ table
      → s.loads ≡ []
      → current_filter (set_inputs in_scope inputs s.tab) ≡ f
      → needs_filter f ≡ false
      → IsFalling table.rows
      → (run like unmarshal marshal stored_time in_scope
          (choose inputs ∷ fetch false 0 ∷ deliver 0 ∷ scrolls n)
          s).tab.displayed
        ≡ map
            (without_bodies unmarshal)
            (take (page_size + n * page_size) (select (matches_filter like f) table.rows))
  unfolding run step
  scrolled-displayed marshal stored_time in_scope s inputs n store loads filter_here plain falls =
      let t = set_inputs in_scope inputs s.tab in
      let start = fetch false 0 ∷ deliver 0 ∷ scrolls n in
      let shown0 =
        first_tab-IsShowing marshal stored_time in_scope s.updates falls plain t filter_here in
      let (t', r, h) =
        scrolls-IsShowing marshal stored_time in_scope s.updates falls plain n (0 + page_size)
          (first_tab like unmarshal f table marshal stored_time in_scope s.updates t) (omega arith)
          shown0 in
      let all_of : run like unmarshal marshal stored_time in_scope start (first_load_of t s)
          ≡ quiet like unmarshal f table marshal stored_time in_scope s.updates t' =
        ap (run like unmarshal marshal stored_time in_scope start)
          (first_load_quiet s t store loads)
        ∙ unfold quiet runs in
          (first_page_shown marshal stored_time in_scope s.updates falls plain t (scrolls n)
              filter_here
            ∙ r) in
      let count : 0 + page_size + n * page_size ≡ page_size + n * page_size = omega arith in
      ap (λ (u : System). u.tab.displayed) all_of
      ∙ unfold quiet pages matching in
        (h.shown
          ∙ ap
              (λ m.
                map (without_bodies unmarshal) (take m (select (matches_filter like f) table.rows)))
              count)
