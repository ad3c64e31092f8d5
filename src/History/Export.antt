-- ===== src/History/Export.antt =====
-- `exportHAR` of internal/ui/har.go, up to the transactions that it writes: the pages are collected,
-- and every row is read again with its bodies.
use mathlib.Core.Option
use shiv.Prelude.{
  ltb, if◌then◌else◌, length, ℕ, zero, suc, Bool, Option, none, some, List, [], ◌∷◌, ◌++◌, map,
}
use shiv.Text.{Bytes}
use shiv.Http.Header.{Header}
use shiv.History.{
  page_size, transactions_page, get_transaction, Transaction, HistoryTable, TransactionFilter,
}

unfoldable pub last_id : List Transaction → ℕ
last_id [] = 0
last_id (t ∷ []) = t.id
last_id (t ∷ u ∷ ts) = last_id (u ∷ ts)

-- The rounds behind a page, where `rest` is what they collect.
unfoldable pub next_page : List Transaction → Option (List Transaction) → Option (List Transaction)
next_page page rest = if ltb (length page) page_size then some page else Option.map (◌++◌ page) rest

module _ (unmarshal : Bytes → Option Header) (s : HistoryTable) where
  -- A row that cannot be read stays without its bodies.
  unfoldable pub with_bodies : Bool → Transaction → Transaction
  unfolding get_transaction
  with_bodies unread t = elim (get_transaction unmarshal unread t.id s) [
    | none ↦ t
    | some full ↦ full
  ]

module _ (like : Bytes → Bytes → Bool) (unmarshal : Bytes → Option Header) (fails : ℕ → Bool)
    (f : TransactionFilter) (s : HistoryTable) where
  -- `for { page, err := TransactionsPage(cursor, f) … }`, on as many rounds as there are rows and one
  -- more: a round that is not the last reads at least one row.
  unfoldable pub collect_pages : ℕ → ℕ → Option (List Transaction)
  unfolding transactions_page next_page last_id
  collect_pages zero cursor = some []
  collect_pages (suc fuel) cursor =
      elim (transactions_page unmarshal like (fails cursor) cursor f s) [
        | none ↦ none
        | some page ↦ next_page page (collect_pages fuel (last_id page))
      ]

  unfoldable pub export_transactions : Bool → Option (List Transaction)
  unfolding collect_pages with_bodies
  export_transactions unread =
      Option.map (map (with_bodies unmarshal s unread)) (collect_pages (suc (length s.rows)) 0)
