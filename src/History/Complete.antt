-- ===== src/History/Complete.antt =====
-- `exportHAR` of internal/ui/har.go over the whole table, and the operations of
-- internal/store/history.go that write.
use mathlib.Core.Option
use shiv.Prelude.{
  if◌then◌else◌, All, All-map, ◌<◌, ◌≡◌, refl, ap, ◌∙◌, Bool, false, not, ◌&&◌, Option, none, some,
  List, [], ◌∷◌, map, arith,
}
use shiv.Prelude.Int.{ℤ}
use shiv.Text.{Bytes, same}
use shiv.Http.Header.{Header}
use shiv.History.{
  same_int, select, matches_filter, find_row, scan, without_bodies, get_transaction, Row,
  HistoryTable, TransactionFilter,
}
use shiv.History.Export.{with_bodies, export_transactions}
use shiv.History.Paging.{IsFalling, All-select, collect_pages-lem}

find_this : (r : Row) (rs : List Row) → find_row r.entry.id (r ∷ rs) ≡ some r
unfolding find_row
find_this r rs = ground arith

find_behind :
    (q r : Row) (rs : List Row)
    → q.entry.id < r.entry.id
    → find_row q.entry.id (r ∷ rs) ≡ find_row q.entry.id rs
unfolding find_row
find_behind q r rs h = ground arith

found_behind :
    (r : Row) (rs xs : List Row)
    → All (λ (q : Row). q.entry.id < r.entry.id) xs
    → All (λ (q : Row). find_row q.entry.id rs ≡ some q) xs
    → All (λ (q : Row). find_row q.entry.id (r ∷ rs) ≡ some q) xs
found_behind r rs [] h k = tt
found_behind r rs (q ∷ qs) h k = (find_behind q r rs h.0 ∙ k.0, found_behind r rs qs h.1 k.1)

-- A row is found by its id.
found-All : (rs : List Row) → IsFalling rs → All (λ (q : Row). find_row q.entry.id rs ≡ some q) rs
found-All [] h = tt
found-All (r ∷ rs) h = (find_this r rs, found_behind r rs rs h.1 (found-All rs h.2))

map-map {ℓ} :
    {A B C : Type ℓ} (g : B → C) (h : A → B) (k : A → C) (xs : List A)
    → All (λ (x : A). g (h x) ≡ k x) xs
    → map g (map h xs) ≡ map k xs
map-map g h k [] p = refl
map-map g h k (x ∷ xs) p =
    ap (λ y. y ∷ map g (map h xs)) p.0 ∙ ap (◌∷◌ (k x)) (map-map g h k xs p.1)

module _ (like : Bytes → Bytes → Bool) (unmarshal : Bytes → Option Header) (f : TransactionFilter)
    (s : HistoryTable) where
  read_again :
      (r : Row)
      → find_row r.entry.id s.rows ≡ some r
      → with_bodies unmarshal s false (without_bodies unmarshal r) ≡ scan unmarshal r
  unfolding with_bodies get_transaction without_bodies
  read_again r h = ground arith

  -- Where the ids fall from row to row and are positive, and the database makes no error, the export
  -- is every row that matches the filter, once each, with its bodies, newest first, however many pages
  -- they fill. The rounds of `exportHAR` are at most one more than the rows.
  pub export_transactions-select :
      IsFalling s.rows
      → export_transactions like unmarshal (λ c. false) f s false
        ≡ some (map (scan unmarshal) (select (matches_filter like f) s.rows))
  unfolding export_transactions
  export_transactions-select h =
      let rs = select (matches_filter like f) s.rows in
      ap (Option.map (map (with_bodies unmarshal s false))) (collect_pages-lem like unmarshal f s h)
      ∙ ap some (
          map-map (with_bodies unmarshal s false) (without_bodies unmarshal) (scan unmarshal) rs (
            All-map (λ (q : Row). find_row q.entry.id s.rows ≡ some q)
              (λ (q : Row).
                with_bodies unmarshal s false (without_bodies unmarshal q) ≡ scan unmarshal q)
              read_again rs
              (All-select (λ (q : Row). find_row q.entry.id s.rows ≡ some q) (matches_filter like f)
                s.rows (found-All s.rows h))))

-- The rows fall, and the id of the next one is greater than theirs.
abbrev pub IsStored : HistoryTable → Type 0
IsStored s = (0 < s.next_id) × All (λ (q : Row). q.entry.id < s.next_id) s.rows × IsFalling s.rows

-- The row, unless it is of this host and port.
abbrev pub not_of : Bytes → ℤ → Option Row → Option Row
not_of host port none = none
not_of host port (some r) =
    if same r.entry.host host && same_int r.entry.port port then none else some r

module _ (host : Bytes) (port : ℤ) where
  others : Row → Bool
  others r = not (same r.entry.host host && same_int r.entry.port port)
