-- ===== src/Repeater/Order.antt =====
-- The tabs come back in the order in which they were saved.
use shiv.Prelude.{
  ◌==◌, if◌then◌else◌, Bool-cases, ℕ, ◌+◌, ◌<◌, ◌≡◌, refl, ap, inl, inr, Bool, true, false, some,
  List, [], ◌∷◌, ◌++◌, arith,
}
use shiv.Text.{Bytes}
use shiv.Repeater.{
  type_or_http, max_position, save_repeater_tab, update_rows, update_repeater_tab,
  rename_repeater_tab, delete_rows, delete_repeater_tab, insert_tab, sort_tabs, fill_types,
  all_repeater_tabs, RepeaterTab, TabTable,
}

-- All rows stand behind this position.
abbrev pub AllAfter : ℕ → List RepeaterTab → Type 0
AllAfter p [] = Unit
AllAfter p (t ∷ ts) = (p < t.position) × AllAfter p ts

-- The positions grow from row to row.
abbrev pub IsAscending : List RepeaterTab → Type 0
IsAscending [] = Unit
IsAscending (t ∷ ts) = AllAfter t.position ts × IsAscending ts

insert_tab-first :
    (t : RepeaterTab) (ts : List RepeaterTab) → AllAfter t.position ts → insert_tab t ts ≡ t ∷ ts
unfolding insert_tab
insert_tab-first t [] h = refl
insert_tab-first t (u ∷ ts) h = ground (arith, h.0)

sort_tabs-IsAscending : (ts : List RepeaterTab) → IsAscending ts → sort_tabs ts ≡ ts
unfolding sort_tabs
sort_tabs-IsAscending [] h = refl
sort_tabs-IsAscending (t ∷ ts) h = rw (sort_tabs-IsAscending ts h.1) (insert_tab-first t ts h.0)

AllAfter-update_rows :
    (change : RepeaterTab → RepeaterTab)
    (keeps : (t : RepeaterTab) → (change t).position ≡ t.position) (p id : ℕ)
    (ts : List RepeaterTab)
    → AllAfter p ts
    → AllAfter p (update_rows change id ts)
unfolding update_rows
AllAfter-update_rows change keeps p id [] h = tt
AllAfter-update_rows change keeps p id (t ∷ ts) h =
    (ground (arith, h.0, keeps t), AllAfter-update_rows change keeps p id ts h.1)

update_position :
    (change : RepeaterTab → RepeaterTab)
    (keeps : (t : RepeaterTab) → (change t).position ≡ t.position) (b : Bool) (t : RepeaterTab)
    → (if b then change t else t).position ≡ t.position
update_position change keeps true t = keeps t
update_position change keeps false t = refl

IsAscending-update_rows :
    (change : RepeaterTab → RepeaterTab)
    (keeps : (t : RepeaterTab) → (change t).position ≡ t.position) (id : ℕ) (ts : List RepeaterTab)
    → IsAscending ts
    → IsAscending (update_rows change id ts)
unfolding update_rows
IsAscending-update_rows change keeps id [] h = tt
IsAscending-update_rows change keeps id (t ∷ ts) h = (
  rw (update_position change keeps (t.id == id) t)
      (AllAfter-update_rows change keeps t.position id ts h.0),
  IsAscending-update_rows change keeps id ts h.1,
)

AllAfter-delete_rows :
    (p id : ℕ) (ts : List RepeaterTab) → AllAfter p ts → AllAfter p (delete_rows id ts)
unfolding delete_rows
AllAfter-delete_rows p id [] h = tt
AllAfter-delete_rows p id (t ∷ ts) h = elim (Bool-cases (t.id == id)) [
  | inl e ↦ simp e (AllAfter-delete_rows p id ts h.1)
  | inr e ↦ simp e (h.0, AllAfter-delete_rows p id ts h.1)
]

IsAscending-delete_rows :
    (id : ℕ) (ts : List RepeaterTab) → IsAscending ts → IsAscending (delete_rows id ts)
unfolding delete_rows
IsAscending-delete_rows id [] h = tt
IsAscending-delete_rows id (t ∷ ts) h = elim (Bool-cases (t.id == id)) [
  | inl e ↦ simp e (IsAscending-delete_rows id ts h.1)
  | inr e ↦ simp e (AllAfter-delete_rows t.position id ts h.0, IsAscending-delete_rows id ts h.1)
]

AllAfter-append :
    (p : ℕ) (ts : List RepeaterTab) (u : RepeaterTab)
    → AllAfter p ts
    → p < u.position
    → AllAfter p (ts ++ u ∷ [])
AllAfter-append p [] u h lt = (lt, tt)
AllAfter-append p (t ∷ ts) u h lt = (h.0, AllAfter-append p ts u h.1 lt)

IsAscending-append :
    (ts : List RepeaterTab) (u : RepeaterTab)
    → IsAscending ts
    → max_position ts < u.position
    → IsAscending (ts ++ u ∷ [])
unfolding max_position
IsAscending-append [] u h lt = (tt, tt)
IsAscending-append (t ∷ ts) u h lt =
    (AllAfter-append t.position ts u h.0 (ground arith), IsAscending-append ts u h.1 (ground arith))

-- Every operation keeps the positions growing from row to row, database errors included.
pub repeater-IsAscending :
    (fails : Bool) (tab : RepeaterTab) (id : ℕ) (name raw response : Bytes) (s : TabTable)
    → IsAscending s.rows
    → IsAscending (save_repeater_tab fails tab s).1.rows
      × IsAscending (update_repeater_tab fails id raw response s).rows
      × IsAscending (rename_repeater_tab fails id name s).rows
      × IsAscending (delete_repeater_tab fails id s).rows
unfolding save_repeater_tab update_repeater_tab rename_repeater_tab delete_repeater_tab
repeater-IsAscending true tab id name raw response s h = (h, h, h, h)
repeater-IsAscending false tab id name raw response s h = (
  IsAscending-append s.rows _ h (omega arith),
  IsAscending-update_rows _ (λ t. refl) id s.rows h,
  IsAscending-update_rows _ (λ t. refl) id s.rows h,
  IsAscending-delete_rows id s.rows h,
)

fill_types-append :
    (xs ys : List RepeaterTab) → fill_types (xs ++ ys) ≡ fill_types xs ++ fill_types ys
unfolding fill_types
fill_types-append [] ys = refl
fill_types-append (t ∷ xs) ys =
    ap (◌∷◌ (record t { tab_type = type_or_http t.tab_type })) (fill_types-append xs ys)

type_or_http_twice : (s : Bytes) → type_or_http (type_or_http s) ≡ type_or_http s
unfolding type_or_http
type_or_http_twice [] = refl
type_or_http_twice (c ∷ s) = refl

-- With positions that grow from row to row and a database that answers, a tab that is saved comes
-- back last, behind all that were there, with the new id and its contents;
-- a tab of no type is an http tab.
pub all_repeater_tabs-save_repeater_tab :
    (tab : RepeaterTab) (s : TabTable)
    → IsAscending s.rows
    → all_repeater_tabs false (save_repeater_tab false tab s).1
      ≡ some (
          fill_types s.rows
          ++ record tab {
            id = s.next_id;
            tab_type = type_or_http tab.tab_type;
            position = max_position s.rows + 1;
          }
            ∷ [])
unfolding all_repeater_tabs save_repeater_tab fill_types
all_repeater_tabs-save_repeater_tab tab s h =
    let up =
      IsAscending-append s.rows
        (record tab {
          id = s.next_id;
          tab_type = type_or_http tab.tab_type;
          position = max_position s.rows + 1;
        })
        h (omega arith) in
    rw (sort_tabs-IsAscending _ up, fill_types-append, type_or_http_twice) refl
