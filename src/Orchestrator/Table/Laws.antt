-- ===== src/Orchestrator/Table/Laws.antt =====
-- What a lookup finds after each statement.
use clawside.Common.{
  String, true, false, none, some, List, [], ◌∷◌, ◌++◌, ◌≡◌, ◌≢◌, refl, sym, str_eq, eq_iff, arith,
}
use clawside.Orchestrator.Table.{find, upsert, insert_row, update}

pub str_eq_self : (a : String) → str_eq a a ≡ true
str_eq_self a = (eq_iff a a).1 refl

pub str_eq_other : (a b : String) → a ≢ b → str_eq a b ≡ false
str_eq_other a b ne = ground (arith, eq_iff a b)

module _ {R : Type 0} (key : R → String) where
  pub find_key : (id : String) (r : R) (rows : List R) → find key id rows ≡ some r → key r ≡ id
  unfolding find
  find_key id r [] e = cc
  find_key id r (first ∷ rows) e = ground (arith, eq_iff (key first) id, find_key id r rows)

  pub find-upsert_self :
      (new : R) (rows : List R) → find key (key new) (upsert key new rows) ≡ some new
  unfolding find upsert
  find-upsert_self new [] = ground (arith, str_eq_self (key new))
  find-upsert_self new (r ∷ rows) = ground (arith, str_eq_self (key new), find-upsert_self new rows)

  pub find-upsert_other :
      (id : String) (new : R) (rows : List R)
      → id ≢ key new
      → find key id (upsert key new rows) ≡ find key id rows
  unfolding find upsert
  find-upsert_other id new [] ne = ground (arith, eq_iff (key new) id)
  find-upsert_other id new (r ∷ rows) ne = ground (
    arith,
    eq_iff (key new) id,
    eq_iff (key r) id,
    eq_iff (key r) (key new),
    find-upsert_other id new rows ne,
  )

  find-append :
      (id : String) (new : R) (rows : List R)
      → find key (key new) rows ≡ none
      → find key id (rows ++ new ∷ [])
        ≡ elim (str_eq (key new) id) [ true ↦ some new | false ↦ find key id rows ]
  unfolding find
  find-append id new [] e = ground arith
  find-append id new (r ∷ rows) e = ground (
    arith,
    eq_iff (key new) id,
    eq_iff (key r) id,
    eq_iff (key r) (key new),
    find-append id new rows,
  )

  -- An INSERT that succeeds was one of a new key.
  pub insert_row-fresh :
      (new : R) (rows grown : List R)
      → insert_row key new rows ≡ some grown
      → (find key (key new) rows ≡ none) × (grown ≡ rows ++ new ∷ [])
  unfolding insert_row
  insert_row-fresh new rows grown e = ground arith

  pub find-insert_self :
      (new : R) (rows grown : List R)
      → insert_row key new rows ≡ some grown
      → find key (key new) grown ≡ some new
  find-insert_self new rows grown e =
      let (fresh, same) = insert_row-fresh new rows grown e in
      rw (same, find-append (key new) new rows fresh, str_eq_self (key new)) refl

  pub find-insert_other :
      (id : String) (new : R) (rows grown : List R)
      → insert_row key new rows ≡ some grown
      → id ≢ key new
      → find key id grown ≡ find key id rows
  find-insert_other id new rows grown e ne =
      let (fresh, same) = insert_row-fresh new rows grown e in
      rw (same, find-append id new rows fresh, str_eq_other (key new) id (λ q. ne (sym q))) refl

  pub find-update_self :
      (id : String) (change : R → R) (r : R) (rows : List R)
      → key (change r) ≡ id
      → find key id rows ≡ some r
      → find key id (update key id change rows) ≡ some (change r)
  unfolding find update
  find-update_self id change r [] same e = cc
  find-update_self id change r (first ∷ rows) same e =
      ground (arith, eq_iff (key (change r)) id, find-update_self id change r rows same)

  pub find-update_other :
      (other id : String) (change : R → R) (rows : List R)
      → ((r : R) → key r ≡ id → key (change r) ≡ id)
      → other ≢ id
      → find key other (update key id change rows) ≡ find key other rows
  unfolding find update
  find-update_other other id change [] same ne = refl
  find-update_other other id change (r ∷ rows) same ne = ground (
    arith,
    same r,
    eq_iff (key r) other,
    eq_iff (key (change r)) other,
    eq_iff (key r) id,
    find-update_other other id change rows same ne,
  )
