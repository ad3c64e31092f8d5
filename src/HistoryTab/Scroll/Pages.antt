-- ===== src/HistoryTab/Scroll/Pages.antt =====
-- What the first rows of a history are to the tab that shows them: its cursor and its next page.
use shiv.Prelude.{
  ltb, ◌==◌, if◌then◌else◌, ltb→lt, ltb→le, Bool-cases, length, take, drop, length-take,
  length-drop, get_elem?-some, ℕ, zero, suc, ◌+◌, ◌≤◌, ◌<◌, ◌≡◌, refl, sym, ap, ◌∙◌, ◌⊎◌, inl, inr,
  Bool, true, false, Option, some, List, [], ◌∷◌, ◌++◌, map, arith,
}
use shiv.Text.{Bytes}
use shiv.Http.Header.{Header}
use shiv.History.{
  page_size, select, is_before, matches_filter, without_bodies, transactions_page, Transaction, Row,
  HistoryTable, TransactionFilter,
}
use shiv.History.Export.{last_id}
use shiv.History.Paging.{
  IsFalling, select-IsFalling, select-and, select-is_before, take_short, length-map, map-append,
  last_id-take,
}
use shiv.HistoryTab.{current_filter, Tab}
use shiv.HistoryTab.Loading.{is_nil}
use shiv.HistoryTab.System.Steps.{last_id-append}

take_add {ℓ} :
    {A : Type ℓ} (k n : ℕ) (xs : List A) → take k xs ++ take n (drop k xs) ≡ take (k + n) xs
take_add zero n xs = let e : n ≡ 0 + n = omega arith in ap (λ m. take m xs) e
take_add (suc k) n [] =
    take_short n [] (omega arith) ∙ sym (take_short (suc k + n) [] (omega arith))
take_add (suc k) n (x ∷ xs) =
    ap (◌∷◌ x) (take_add k n xs)
    ∙ (let e : suc (k + n) ≡ suc k + n = omega arith in ap (λ m. take m (x ∷ xs)) e)

pub take_end {ℓ} :
    {A : Type ℓ} (k n : ℕ) (xs : List A) → length xs ≤ k → take k xs ≡ take (k + n) xs
take_end k n xs h = take_short k xs h ∙ sym (take_short (k + n) xs (omega arith))

length-take_le {ℓ} :
    {A : Type ℓ} (n : ℕ) (xs : List A) → length xs ≤ n → length (take n xs) ≡ length xs
length-take_le n xs h = ap length (take_short n xs h)

-- The tab once the next page has been delivered.
unfoldable pub with_page : List Transaction → Tab → Tab
with_page txs t = record t {
  displayed = t.displayed ++ txs;
  has_more = length txs == page_size;
  cursor = if is_nil txs then t.cursor else last_id txs;
  loading_more = false;
}

module _ (like : Bytes → Bytes → Bool) (unmarshal : Bytes → Option Header) (f : TransactionFilter)
    (table : HistoryTable) where
  unfoldable pub matching : List Row
  matching = select (matches_filter like f) table.rows

  unfoldable pub pages : ℕ → List Transaction
  pages k = map (without_bodies unmarshal) (take k matching)

  -- The first `k` matching rows are shown, and `hasMore` is set if there may be more.
  pub record IsShowing (k : ℕ) (t : Tab) : Type 0 where
    pub shown : t.displayed ≡ pages k
    pub at_last : t.cursor ≡ last_id t.displayed
    pub idle : t.loading_more ≡ false
    pub more :
        ((t.has_more ≡ true) × (k ≤ length matching))
        ⊎ ((t.has_more ≡ false) × (length matching ≤ k))
    pub filter_is : current_filter t ≡ f

  -- The page behind the first `k` rows.
  pub page_behind :
      (k cursor : ℕ)
      → select (is_before cursor) matching ≡ drop k matching
      → transactions_page unmarshal like false cursor f table
        ≡ some (map (without_bodies unmarshal) (take page_size (drop k matching)))
  unfolding transactions_page matching
  page_behind k cursor h =
      ap (λ rs. some (map (without_bodies unmarshal) (take page_size rs)))
        (select-and (is_before cursor) (matches_filter like f) table.rows ∙ h)

  pub pages_add :
      (k : ℕ)
      → pages k ++ map (without_bodies unmarshal) (take page_size (drop k matching))
        ≡ pages (k + page_size)
  unfolding pages
  pages_add k =
      map-append (without_bodies unmarshal) (take k matching) (take page_size (drop k matching))
      ∙ ap (map (without_bodies unmarshal)) (take_add k page_size matching)

  -- The cursor behind the first rows.
  pub cursor_behind :
      (k : ℕ)
      → IsFalling table.rows
      → 0 < k
      → k ≤ length matching
      → (0 < last_id (pages k))
        × (select (is_before (last_id (pages k))) matching ≡ drop k matching)
  unfolding pages matching
  cursor_behind zero falls some_shown le = absurd (omega arith)
  cursor_behind (suc k) falls some_shown le =
      let (r, at) = get_elem?-some matching k (omega arith) in
      let id_of : last_id (map (without_bodies unmarshal) (take (suc k) matching)) ≡ r.entry.id =
        last_id-take like unmarshal f table matching k at in
      let (positive, behind) =
        select-is_before matching k (select-IsFalling (matches_filter like f) table.rows falls)
          at in
      rw id_of (positive, behind)

  unfoldable pub page_rows : ℕ → List Transaction
  page_rows k = map (without_bodies unmarshal) (take page_size (drop k matching))

  -- A page is full exactly if more rows may follow.
  pub page_rows-more :
      (k : ℕ)
      → k ≤ length matching
      → (((length (page_rows k) == page_size) ≡ true) × (k + page_size ≤ length matching))
        ⊎ (((length (page_rows k) == page_size) ≡ false) × (length matching ≤ k + page_size))
  unfolding page_rows
  page_rows-more k le =
      let rest = drop k matching in
      let size = length-map (without_bodies unmarshal) (take page_size rest) in
      let left = length-drop k matching in
      elim (Bool-cases (ltb (length rest) page_size)) [
        | inl few ↦
            let lt = ltb→lt (length rest) page_size few in
            let cut_short = length-take_le page_size rest (omega arith) in
            inr (ground arith, omega arith)
        | inr many ↦
            let ge = ltb→le (length rest) page_size many in
            let whole = length-take page_size rest ge in inl (ground arith, omega arith)
      ]

  pub with_page-IsShowing :
      (k : ℕ) (t : Tab)
      → IsShowing k t
      → k ≤ length matching
      → IsShowing (k + page_size) (with_page (page_rows k) t)
  unfolding with_page
  with_page-IsShowing k t h le = record {
    shown = ap (λ xs. xs ++ page_rows k) h.shown ∙ unfold page_rows in pages_add k;
    at_last =
        ap (λ c. if is_nil (page_rows k) then c else last_id (page_rows k)) h.at_last
        ∙ sym (last_id-append t.displayed (page_rows k));
    idle = refl;
    more = page_rows-more k le;
    filter_is = unfold current_filter in h.filter_is;
  }
