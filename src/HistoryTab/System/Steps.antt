-- ===== src/HistoryTab/System/Steps.antt =====
-- What each step of the history tab does to its cursor and its loads.
use shiv.Prelude.{
  ◌==◌, if◌then◌else◌, Bool-cases, Option-cases, get_elem?, set, ℕ, zero, suc, ◌≡◌, refl, sym, ap,
  ◌∙◌, ◌⊎◌, inl, inr, Bool, true, false, not, ◌||◌, Option, none, some, List, [], ◌∷◌, ◌++◌, arith,
}
use shiv.Text.{same}
use shiv.HistoryTab.{current_filter, matches_filter, is_displayed, watch_update, drop_host, Tab}
use shiv.HistoryTab.Loading.{
  fetched, load_first_page, load_next_page, is_nil, show_first_page, show_next_page, show_page,
  Load, LoadKind, first_load, next_load, Fetch, waiting, failed,
}
use shiv.History.{delete_transactions_by_host_port, Transaction}
use shiv.History.Export.{last_id}
use shiv.SiteMap.{NodeId}
use shiv.HistoryTab.System.{
  without_nth, first_load_of, scroll_down, take_first, is_waiting, deliver_load, delete_node,
  is_next, has_next, System, IsPaged,
}

pub last_id-append :
    (xs ys : List Transaction) → last_id (xs ++ ys) ≡ (if is_nil ys then last_id xs else last_id ys)
unfolding last_id is_nil
last_id-append [] [] = refl
last_id-append [] (y ∷ ys) = refl
last_id-append (x ∷ []) [] = refl
last_id-append (x ∷ []) (y ∷ ys) = refl
last_id-append (x ∷ x' ∷ xs) ys = last_id-append (x' ∷ xs) ys

has_next-append : (ls : List Load) (l : Load) → has_next (ls ++ l ∷ []) ≡ (has_next ls || is_next l)
unfolding has_next
has_next-append [] l = ground arith
has_next-append (k ∷ ls) l = ground (arith, has_next-append ls l)

-- A load that is not a next one can go.
has_next-without_nth :
    (ls : List Load) (n : ℕ) (l : Load)
    → get_elem? ls n ≡ some l
    → is_next l ≡ false
    → has_next (without_nth n ls) ≡ has_next ls
unfolding has_next without_nth
has_next-without_nth [] n l h k = refl
has_next-without_nth (x ∷ ls) zero l h k = let same : x ≡ l = cc in rw (ap is_next same ∙ k) refl
has_next-without_nth (x ∷ ls) (suc n) l h k =
    ap (λ b. is_next x || b) (has_next-without_nth ls n l h k)

pub has_next-set :
    (ls : List Load) (n : ℕ) (l v : Load)
    → get_elem? ls n ≡ some l
    → is_next v ≡ is_next l
    → has_next (set ls n v) ≡ has_next ls
unfolding has_next
has_next-set [] n l v h k = refl
has_next-set (x ∷ ls) zero l v h k = let same : x ≡ l = cc in rw (k ∙ ap is_next (sym same)) refl
has_next-set (x ∷ ls) (suc n) l v h k = ap (λ b. is_next x || b) (has_next-set ls n l v h k)

pub first_load_of-IsPaged :
    (t : Tab) (s : System)
    → t.cursor ≡ last_id t.displayed
    → (t.loading_more ≡ true → has_next s.loads ≡ true)
    → IsPaged (first_load_of t s)
unfolding first_load_of load_first_page
first_load_of-IsPaged t s c h = record {
  cursor_last = c;
  loads_next = λ e. has_next-append s.loads _ ∙ rw (h e) refl;
}

unfoldable pub next_of : Tab → Load
next_of t = record {
  kind = next_load;
  local_id = t.query_id;
  cursor = t.cursor;
  filter = current_filter t;
  page = waiting;
}

load_next_page-cases :
    (t : Tab)
    → (load_next_page t ≡ none)
      ⊎ ((l : Load) × (load_next_page t ≡ some (record t { loading_more = true }, l))
          × (is_next l ≡ true))
unfolding load_next_page is_next next_of
load_next_page-cases t = elim (Bool-cases (t.loading_more || (not t.has_more || t.cursor == 0))) [
  | inl busy ↦ inl (rw busy refl)
  | inr free ↦ inr (next_of t, rw free refl, refl)
]

started-IsPaged :
    (l : Load) (s : System)
    → is_next l ≡ true
    → IsPaged s
    → IsPaged (record s { tab = record s.tab { loading_more = true }; loads = s.loads ++ l ∷ [] })
started-IsPaged l s k h = record {
  cursor_last = h.cursor_last;
  loads_next = λ e. has_next-append s.loads l ∙ ground arith;
}

pub load_next_page_more :
    (t : Tab)
    → (t.loading_more || (not t.has_more || t.cursor == 0)) ≡ false
    → load_next_page t ≡ some (record t { loading_more = true }, next_of t)
unfolding load_next_page next_of
load_next_page_more t e = rw e refl

pub load_next_page_done :
    (t : Tab)
    → (t.loading_more || (not t.has_more || t.cursor == 0)) ≡ true
    → load_next_page t ≡ none
unfolding load_next_page
load_next_page_done t e = rw e refl

pub scroll_down-none : (s : System) → load_next_page s.tab ≡ none → scroll_down s ≡ s
unfolding scroll_down
scroll_down-none s e = ground arith

pub scroll_down-some :
    (s : System) (t : Tab) (l : Load)
    → load_next_page s.tab ≡ some (t, l)
    → scroll_down s ≡ record s { tab = t; loads = s.loads ++ l ∷ [] }
unfolding scroll_down
scroll_down-some s t l e = ground arith

pub scroll_down-IsPaged : (s : System) → IsPaged s → IsPaged (scroll_down s)
scroll_down-IsPaged s h = elim (load_next_page-cases s.tab) [
  | inl stays ↦ rw (scroll_down-none s stays) h
  | inr (l, e, next) ↦ rw (scroll_down-some s _ l e) (started-IsPaged l s next h)
]

watch_update-IsPaged :
    (tx : Transaction) (t : Tab)
    → t.cursor ≡ last_id t.displayed
    → ((watch_update tx t).cursor ≡ last_id (watch_update tx t).displayed)
      × ((watch_update tx t).loading_more ≡ t.loading_more)
unfolding watch_update
watch_update-IsPaged tx t c = elim (Bool-cases (is_displayed tx.id t.displayed)) [
  | inl there ↦ rw there (c, refl)
  | inr new ↦ elim (Bool-cases (matches_filter tx (current_filter t))) [
    | inl shown ↦ rw (new, shown) (refl, refl)
    | inr hidden ↦ rw (new, hidden) (c, refl)
  ]
]

pub take_first-IsPaged :
    (us : List Transaction) (s : System) → IsPaged s → IsPaged (take_first us s)
unfolding take_first
take_first-IsPaged [] s h = h
take_first-IsPaged (tx ∷ us) s h =
    let (c, l) = watch_update-IsPaged tx s.tab h.cursor_last in
    record { cursor_last = c; loads_next = λ e. h.loads_next (sym l ∙ e) }

show_first_page-cursor :
    (id : ℕ) (page : Fetch) (t : Tab)
    → t.cursor ≡ last_id t.displayed
    → (show_first_page id page t).cursor ≡ last_id (show_first_page id page t).displayed
unfolding show_first_page
show_first_page-cursor id waiting t c = c
show_first_page-cursor id failed t c = c
show_first_page-cursor id (fetched txs n) t c = elim (Bool-cases (id == t.query_id)) [
  | inl same ↦ rw same refl
  | inr stale ↦ rw stale c
]

show_next_page-cursor :
    (id : ℕ) (page : Fetch) (t : Tab)
    → t.cursor ≡ last_id t.displayed
    → (show_next_page id page t).cursor ≡ last_id (show_next_page id page t).displayed
unfolding show_next_page
show_next_page-cursor id waiting t c = c
show_next_page-cursor id failed t c = c
show_next_page-cursor id (fetched txs n) t c = elim (Bool-cases (id == t.query_id)) [
  | inl same ↦ rw same (ground (arith, last_id-append t.displayed txs))
  | inr stale ↦ rw stale c
]

show_page-first :
    (l : Load) (t : Tab) → l.kind ≡ first_load → show_page l t ≡ show_first_page l.local_id l.page t
unfolding show_page
show_page-first l t e = ground arith

show_page-next :
    (l : Load) (t : Tab) → l.kind ≡ next_load → show_page l t ≡ show_next_page l.local_id l.page t
unfolding show_page
show_page-next l t e = ground arith

kind-cases : (k : LoadKind) → (k ≡ first_load) ⊎ (k ≡ next_load)
kind-cases first_load = inl refl
kind-cases next_load = inr refl

show_page-cursor :
    (l : Load) (t : Tab)
    → t.cursor ≡ last_id t.displayed
    → (show_page l t).cursor ≡ last_id (show_page l t).displayed
show_page-cursor l t c = elim (kind-cases l.kind) [
  | inl first ↦ rw (show_page-first l t first) (show_first_page-cursor l.local_id l.page t c)
  | inr next ↦ rw (show_page-next l t next) (show_next_page-cursor l.local_id l.page t c)
]

show_page-loading :
    (l : Load) (t : Tab)
    → is_waiting l.page ≡ false
    → (show_page l t).loading_more ≡ true
    → (t.loading_more ≡ true) × (is_next l ≡ false)
unfolding show_page show_first_page show_next_page is_waiting is_next
show_page-loading l t w h = ground arith

pub deliver_load-IsPaged : (n : ℕ) (s : System) → IsPaged s → IsPaged (deliver_load n s)
unfolding deliver_load
deliver_load-IsPaged n s h = elim (Option-cases (get_elem? s.loads n)) [
  | inl gone ↦ rw (gone, deliver_load) h
  | inr (l, at) ↦ elim (Bool-cases (is_waiting l.page)) [
    | inl waits ↦ rw (at, deliver_load) (rw waits h)
    | inr read ↦
        rw (at, deliver_load)
          (rw read (record {
            cursor_last = show_page-cursor l s.tab h.cursor_last;
            loads_next = λ e.
                let (more, first) = show_page-loading l s.tab read e in
                has_next-without_nth s.loads n l at first ∙ h.loads_next more;
          }))
  ]
]

pub delete_node-IsPaged :
    (fails : Bool) (id : Option NodeId) (s : System) → IsPaged s → IsPaged (delete_node fails id s)
unfolding delete_node drop_host
delete_node-IsPaged fails none s h = h
delete_node-IsPaged true (some id) s h = h
delete_node-IsPaged false (some id) s h =
    first_load_of-IsPaged (drop_host id s.tab)
      (record s { store = delete_transactions_by_host_port false id.host id.port s.store })
      (unfold last_id in refl) h.loads_next
