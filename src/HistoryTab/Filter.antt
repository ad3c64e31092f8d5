-- ===== src/HistoryTab/Filter.antt =====
-- The filter of the history tab against that of the store's query, internal/store/history.go.
pub mod Paths
use shiv.Prelude.{
  leb, ◌==◌, ℕ, ◌≡◌, refl, ap, ◌∙◌, ◌≢◌, Bool, true, not, ◌&&◌, ◌||◌, List, [], ◌∷◌, arith,
}
use shiv.Prelude.Int.{pos}
use shiv.Text.{Bytes, codes, same, fields, lower_byte, upper_byte, to_lower}
use shiv.Text.Equality.{same_iff}
use shiv.Text.Words.{fields_nil}
use shiv.History.{
  same_int, to_upper, one_of, host_matches, method_matches, terms_match, matches_filter,
  Transaction, Row, TransactionFilter,
}
use shiv.SiteMap.{tree_path_of}
use shiv.HistoryTab
use shiv.HistoryTab.Filter.Paths.{path_passes, LikeMatches}

fold_upper : (a b : ℕ) → lower_byte a ≡ lower_byte b → upper_byte a ≡ upper_byte b
unfolding lower_byte upper_byte
fold_upper a b h = ground arith

equal_fold-to_upper :
    (a b : Bytes) → same (to_lower a) (to_lower b) ≡ true → to_upper a ≡ to_upper b
unfolding to_lower to_upper same
equal_fold-to_upper [] [] h = refl
equal_fold-to_upper [] (y ∷ b) h = ground arith
equal_fold-to_upper (x ∷ a) [] h = ground arith
equal_fold-to_upper (x ∷ a) (y ∷ b) h = ground (arith, fold_upper x y, equal_fold-to_upper a b)

fold_one_of-one_of :
    (m : Bytes) (ms : List Bytes)
    → to_upper m ≡ m
    → HistoryTab.fold_one_of m ms ≡ true
    → one_of m ms ≡ true
unfolding HistoryTab.fold_one_of one_of
fold_one_of-one_of m [] u h = h
fold_one_of-one_of m (x ∷ xs) u h =
    ground (arith, equal_fold-to_upper m x, same_iff m (to_upper x), fold_one_of-one_of m xs)

and-true : (a b : Bool) → (a && b) ≡ true → (a ≡ true) × (b ≡ true)
and-true a b h = (ground arith, ground arith)

-- What the tab's filter tests, one by one.
record Passes (t : Transaction) (f : TransactionFilter) : Type 0 where
  host : host_matches f t ≡ true
  path : HistoryTab.under_prefix (tree_path_of t.url) f.path_prefix ≡ true
  scope : (f.show_out_scope || t.in_scope) ≡ true
  method : HistoryTab.method_passes f.methods t.method ≡ true
  low : (f.status_min == 0 || leb f.status_min t.status_code) ≡ true
  high : (f.status_max == 0 || leb t.status_code f.status_max) ≡ true

either_host :
    (any_host host any_port port : Bool)
    → (any_host || host) ≡ true
    → (any_port || port) ≡ true
    → (any_host || host && (any_port || port)) ≡ true
either_host any_host host any_port port h p = ground arith

matches_filter-Passes :
    (t : Transaction) (f : TransactionFilter) → HistoryTab.matches_filter t f ≡ true → Passes t f
unfolding HistoryTab.matches_filter host_matches
matches_filter-Passes t f h =
    let (host, h1) = and-true (same f.host [] || same t.host f.host) _ h in
    let (port, h2) = and-true (same_int f.port (pos 0) || same_int t.port f.port) _ h1 in
    let (path, h3) = and-true (HistoryTab.under_prefix (tree_path_of t.url) f.path_prefix) _ h2 in
    let (scope, h4) = and-true (f.show_out_scope || t.in_scope) _ h3 in
    let (method, h5) = and-true (HistoryTab.method_passes f.methods t.method) _ h4 in
    let (low, h6) = and-true (f.status_min == 0 || leb f.status_min t.status_code) _ h5 in
    let (high, h7) = and-true (f.status_max == 0 || leb t.status_code f.status_max) _ h6 in
    record {
      host =
          either_host (same f.host []) (same t.host f.host) (same_int f.port (pos 0)) _ host port;
      path = path;
      scope = scope;
      method = method;
      low = low;
      high = high;
    }

module _ (like : Bytes → Bytes → Bool) (laws : LikeMatches like) where
  -- The method of a request is in upper case.
  method_passes_row :
      (ms : List Bytes) (t : Transaction)
      → to_upper t.method ≡ t.method
      → HistoryTab.method_passes ms t.method ≡ true
      → method_matches ms t ≡ true
  unfolding HistoryTab.method_passes method_matches
  method_passes_row [] t u h = refl
  method_passes_row (m ∷ ms) t u h = fold_one_of-one_of t.method (m ∷ ms) u h

  -- Every row that the tab shows live, as it is logged, is one that the query of the store finds
  -- for the same filter, where no search is typed, the method is in upper case, and the path of the
  -- selected node is not a slash alone. LIKE is only taken to let a percent sign stand for any text.
  pub matches_filter-row :
      (row : Row) (f : TransactionFilter)
      → f.search ≡ []
      → to_upper row.entry.method ≡ row.entry.method
      → f.path_prefix ≢ codes "/"
      → HistoryTab.matches_filter row.entry f ≡ true
      → matches_filter like f row ≡ true
  unfolding matches_filter
  matches_filter-row row f no_search upper not_slash h =
      let t = row.entry in
      let p = matches_filter-Passes t f h in
      let terms : terms_match like t (fields (to_lower f.search)) ≡ true =
        ap (λ x. terms_match like t (fields (to_lower x))) no_search
        ∙ unfold to_lower in ap (terms_match like t) fields_nil ∙ unfold terms_match in refl in
      rw
        (
          p.scope,
          p.host,
          path_passes like laws t.url f.path_prefix not_slash p.path,
          terms,
          method_passes_row f.methods t upper p.method,
          p.low,
          p.high,
        )
        refl
