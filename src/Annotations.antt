-- ===== src/Annotations.antt =====
-- internal/store/annotation.go: the comments and colours of the history's rows, one at most for each
-- row. The table stands in the order of its key; `fails` is an error of the database.
use shiv.Prelude.{ltb, ◌==◌, if◌then◌else◌, ℕ, ◌≡◌, Bool, Option, none, some, List, [], ◌∷◌, arith}
use shiv.Text.{Bytes}

pub record Annotation : Type 0 where
  pub history_id : ℕ
  pub comment : Bytes
  pub color : Bytes

-- `INSERT … ON CONFLICT(history_id) DO UPDATE`
unfoldable pub upsert_annotation : Annotation → List Annotation → List Annotation
upsert_annotation a [] = a ∷ []
upsert_annotation a (b ∷ bs) =
    let rest = upsert_annotation a bs in
    if a.history_id == b.history_id
    then a ∷ bs
    else if ltb a.history_id b.history_id
    then a ∷ b ∷ bs
    else b ∷ rest

unfoldable pub set_annotation : Bool → Annotation → List Annotation → List Annotation
unfolding upsert_annotation
set_annotation fails a rows = if fails then rows else upsert_annotation a rows

unfoldable pub without_annotation : ℕ → List Annotation → List Annotation
without_annotation id [] = []
without_annotation id (b ∷ bs) =
    let rest = without_annotation id bs in if b.history_id == id then rest else b ∷ rest

unfoldable pub delete_annotation : Bool → ℕ → List Annotation → List Annotation
unfolding without_annotation
delete_annotation fails id rows = if fails then rows else without_annotation id rows

unfoldable pub all_annotations : Bool → List Annotation → Option (List Annotation)
all_annotations fails rows = if fails then none else some rows

-- What the map of the UI holds for a row once it is filled from all annotations.
abbrev find_annotation : ℕ → List Annotation → Option Annotation
find_annotation id [] = none
find_annotation id (b ∷ bs) =
    let rest = find_annotation id bs in if b.history_id == id then some b else rest

-- The annotation of a row is the one that was set last, and those of other rows stay.
find_annotation-upsert_annotation :
    (a : Annotation) (id : ℕ) (rows : List Annotation)
    → find_annotation id (upsert_annotation a rows)
      ≡ (if a.history_id == id then some a else find_annotation id rows)
unfolding upsert_annotation
find_annotation-upsert_annotation a id [] = ground arith
find_annotation-upsert_annotation a id (b ∷ bs) =
    ground (arith, find_annotation-upsert_annotation a id bs)
