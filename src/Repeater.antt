-- ===== src/Repeater.antt =====
-- internal/store/repeater.go: the saved tabs of the repeater. The rows stand in the order of their
-- ids; `fails` is an error of the database, which leaves the table alone.
pub mod Order
mod Tests
use shiv.Prelude.{
  ltb, leb, ◌==◌, if◌then◌else◌, ℕ, ◌+◌, Bool, Option, none, some, List, [], ◌∷◌, ◌++◌,
}
use shiv.Prelude.Int.{ℤ}
use shiv.Text.{Bytes, codes}

pub record RepeaterTab : Type 0 where
  pub id : ℕ
  pub name : Bytes
  pub host : Bytes
  pub port : ℤ
  pub tls : Bool
  pub tab_type : Bytes
  pub raw_request : Bytes
  pub last_response : Bytes
  pub position : ℕ

pub record TabTable : Type 0 where
  pub rows : List RepeaterTab
  pub next_id : ℕ

unfoldable pub type_or_http : Bytes → Bytes
type_or_http [] = codes "http"
type_or_http (c ∷ s) = c ∷ s

-- `COALESCE(MAX(position), 0)`
unfoldable pub max_position : List RepeaterTab → ℕ
max_position [] = 0
max_position (t ∷ ts) =
    let rest = max_position ts in if ltb rest t.position then t.position else rest

-- The id of the new row; `none` for an error.
unfoldable pub save_repeater_tab : Bool → RepeaterTab → TabTable → Option ℕ × TabTable
unfolding max_position type_or_http
save_repeater_tab fails tab s = if fails then (none, s) else (
  some s.next_id,
  record {
    rows =
        s.rows
        ++ record tab {
          id = s.next_id;
          tab_type = type_or_http tab.tab_type;
          position = max_position s.rows + 1;
        }
          ∷ [];
    next_id = s.next_id + 1;
  },
)

-- `UPDATE repeater_tabs SET … WHERE id = ?`
unfoldable pub update_rows : (RepeaterTab → RepeaterTab) → ℕ → List RepeaterTab → List RepeaterTab
update_rows change id [] = []
update_rows change id (t ∷ ts) = (if t.id == id then change t else t) ∷ update_rows change id ts

unfoldable pub update_repeater_tab : Bool → ℕ → Bytes → Bytes → TabTable → TabTable
update_repeater_tab fails id raw_request last_response s = if fails then s else record s {
  rows =
      update_rows (λ t. record t { raw_request = raw_request; last_response = last_response }) id
        s.rows;
}

unfoldable pub rename_repeater_tab : Bool → ℕ → Bytes → TabTable → TabTable
rename_repeater_tab fails id name s =
    if fails then s else record s { rows = update_rows (λ t. record t { name = name }) id s.rows }

-- `DELETE FROM repeater_tabs WHERE id = ?`
unfoldable pub delete_rows : ℕ → List RepeaterTab → List RepeaterTab
delete_rows id [] = []
delete_rows id (t ∷ ts) = let rest = delete_rows id ts in if t.id == id then rest else t ∷ rest

unfoldable pub delete_repeater_tab : Bool → ℕ → TabTable → TabTable
delete_repeater_tab fails id s = if fails then s else record s { rows = delete_rows id s.rows }

-- `ORDER BY position ASC`
unfoldable pub insert_tab : RepeaterTab → List RepeaterTab → List RepeaterTab
insert_tab t [] = t ∷ []
insert_tab t (u ∷ us) =
    let later = insert_tab t us in if leb t.position u.position then t ∷ u ∷ us else u ∷ later

unfoldable pub sort_tabs : List RepeaterTab → List RepeaterTab
sort_tabs [] = []
sort_tabs (t ∷ ts) = insert_tab t (sort_tabs ts)

unfoldable pub fill_types : List RepeaterTab → List RepeaterTab
fill_types [] = []
fill_types (t ∷ ts) = record t { tab_type = type_or_http t.tab_type } ∷ fill_types ts

unfoldable pub all_repeater_tabs : Bool → TabTable → Option (List RepeaterTab)
unfolding sort_tabs insert_tab fill_types
all_repeater_tabs fails s = if fails then none else some (fill_types (sort_tabs s.rows))
