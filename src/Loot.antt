-- ===== src/Loot.antt =====
-- internal/store/loot.go: the findings that the user keeps. The rows stand newest first; `fails` is
-- an error of the database, `now` the time that is stored.
use shiv.Prelude.{
  leb, ◌==◌, if◌then◌else◌, Bool-cases, All, All-map, ℕ, ◌+◌, ◌≤◌, inl, inr, Bool, Option, none,
  some, List, [], ◌∷◌, arith,
}
use shiv.Text.{Bytes, codes, same}

pub record LootEntry : Type 0 where
  pub id : ℕ
  pub title : Bytes
  pub severity : Bytes
  pub notes : Bytes
  pub history_id : Option ℕ
  pub raw_request : Bytes
  pub raw_response : Bytes
  pub created_at : ℕ

pub record LootTable : Type 0 where
  pub rows : List LootEntry
  pub next_id : ℕ

-- `CASE severity WHEN … END`
unfoldable pub severity_rank : Bytes → ℕ
unfolding same
severity_rank s =
    if same s (codes "Critical")
    then 1
    else if same s (codes "High")
    then 2
    else if same s (codes "Medium")
    then 3
    else if same s (codes "Low")
    then 4
    else if same s (codes "Info")
    then 5
    else 6

-- `ORDER BY … ASC, id DESC`, on rows that stand by falling ids: an entry goes in front of those of
-- the same rank, which are older.
unfoldable pub insert_entry : LootEntry → List LootEntry → List LootEntry
unfolding severity_rank
insert_entry e [] = e ∷ []
insert_entry e (x ∷ xs) =
    let rest = insert_entry e xs in
    if leb (severity_rank e.severity) (severity_rank x.severity) then e ∷ x ∷ xs else x ∷ rest

unfoldable pub sort_entries : List LootEntry → List LootEntry
unfolding insert_entry
sort_entries [] = []
sort_entries (e ∷ es) = insert_entry e (sort_entries es)

unfoldable pub all_loot : Bool → LootTable → Option (List LootEntry)
unfolding sort_entries
all_loot fails s = if fails then none else some (sort_entries s.rows)

unfoldable pub add_loot : Bool → ℕ → LootEntry → LootTable → Option ℕ × LootTable
add_loot fails now e s = if fails then (none, s) else (
  some s.next_id,
  record { rows = record e { id = s.next_id; created_at = now } ∷ s.rows; next_id = s.next_id + 1 },
)

unfoldable pub without_entry : ℕ → List LootEntry → List LootEntry
without_entry id [] = []
without_entry id (e ∷ es) = let rest = without_entry id es in if e.id == id then rest else e ∷ rest

unfoldable pub delete_loot : Bool → ℕ → LootTable → LootTable
unfolding without_entry
delete_loot fails id s = if fails then s else record s { rows = without_entry id s.rows }

-- The ranks do not fall from row to row.
abbrev pub IsRanked : List LootEntry → Type 0
IsRanked [] = Unit
IsRanked (e ∷ es) =
    All (λ (x : LootEntry). severity_rank e.severity ≤ severity_rank x.severity) es × IsRanked es

insert_entry-All :
    (n : ℕ) (e : LootEntry) (es : List LootEntry)
    → n ≤ severity_rank e.severity
    → All (λ (x : LootEntry). n ≤ severity_rank x.severity) es
    → All (λ (x : LootEntry). n ≤ severity_rank x.severity) (insert_entry e es)
unfolding insert_entry
insert_entry-All n e [] h k = (h, tt)
insert_entry-All n e (x ∷ xs) h k =
    elim (Bool-cases (leb (severity_rank e.severity) (severity_rank x.severity))) [
      | inl front ↦ rw front (h, (k.0, k.1))
      | inr behind ↦ rw behind (k.0, insert_entry-All n e xs h k.1)
    ]

insert_entry-IsRanked :
    (e : LootEntry) (es : List LootEntry) → IsRanked es → IsRanked (insert_entry e es)
unfolding insert_entry
insert_entry-IsRanked e [] h = (tt, tt)
insert_entry-IsRanked e (x ∷ xs) h =
    elim (Bool-cases (leb (severity_rank e.severity) (severity_rank x.severity))) [
      | inl front ↦
          let first : severity_rank e.severity ≤ severity_rank x.severity = ground arith in
          rw front (
            (
              first,
              All-map (λ (y : LootEntry). severity_rank x.severity ≤ severity_rank y.severity)
                  (λ (y : LootEntry). severity_rank e.severity ≤ severity_rank y.severity)
                  (λ y le. omega arith) xs h.0,
            ),
            (h.0, h.1),
          )
      | inr behind ↦ rw behind (
        insert_entry-All (severity_rank x.severity) e xs (ground arith) h.0,
        insert_entry-IsRanked e xs h.1,
      )
    ]

-- The loot is read by severity.
pub sort_entries-IsRanked : (es : List LootEntry) → IsRanked (sort_entries es)
unfolding sort_entries
sort_entries-IsRanked [] = tt
sort_entries-IsRanked (e ∷ es) =
    insert_entry-IsRanked e (sort_entries es) (sort_entries-IsRanked es)
