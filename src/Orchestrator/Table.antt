-- ===== src/Orchestrator/Table.antt =====
-- internal/orchestrator/store.go: a SQL table as the list of its rows, and the statements that the
-- store runs on it. A primary key is a function on the rows; SQLite keeps it unique, so the row with a
-- key is the first one that has it, and a statement that names a key affects one row at most.
pub mod Laws
use clawside.Common.{
  String, Bool, true, false, Option, none, some, List, [], ◌∷◌, ◌++◌, if◌then◌else◌, str_eq,
}

module _ {R : Type 0} (key : R → String) where
  -- SELECT … WHERE key = id
  unfoldable pub find : String → List R → Option R
  find id [] = none
  find id (r ∷ rows) = if str_eq (key r) id then some r else find id rows

  -- INSERT … ON CONFLICT(key) DO UPDATE SET every other column
  unfoldable pub upsert : R → List R → List R
  upsert new [] = new ∷ []
  upsert new (r ∷ rows) = if str_eq (key r) (key new) then new ∷ rows else r ∷ upsert new rows

  -- INSERT, which a row with the same key makes fail.
  unfoldable pub insert_row : R → List R → Option (List R)
  unfolding find
  insert_row new rows = elim (find (key new) rows) [
    | some taken ↦ none
    | none ↦ some (rows ++ new ∷ [])
  ]

  -- UPDATE … SET change WHERE key = id
  unfoldable pub update : String → (R → R) → List R → List R
  update id change [] = []
  update id change (r ∷ rows) =
      if str_eq (key r) id then change r ∷ rows else r ∷ update id change rows

module _ {R : Type 0} where
  -- SELECT … WHERE test
  unfoldable pub select : (R → Bool) → List R → List R
  select test [] = []
  select test (r ∷ rows) = let rest = select test rows in if test r then r ∷ rest else rest

  -- Some row satisfies the test (EXISTS).
  unfoldable pub exists : (R → Bool) → List R → Bool
  exists test [] = false
  exists test (r ∷ rows) = if test r then true else exists test rows

  unfoldable pub place : (R → R → Bool) → R → List R → List R
  place before new [] = new ∷ []
  place before new (r ∷ rows) =
      let rest = place before new rows in if before new r then new ∷ r ∷ rows else r ∷ rest

  -- ORDER BY
  unfoldable pub order_by : (R → R → Bool) → List R → List R
  unfolding place
  order_by before [] = []
  order_by before (r ∷ rows) = place before r (order_by before rows)
