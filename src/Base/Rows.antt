-- ===== src/Base/Rows.antt =====
-- The database statements of the stores, over a table as the list of its rows. `key` is the primary
-- key of a row. A SELECT without ORDER BY is read in table order, and ORDER BY keeps that order
-- among rows with equal keys; the theorems say nothing about either of the two.
use Prim.Native.Nat.{ℕ, ◌+◌, ◌≤◌}
use Prim.Native.String.{String}
use mathlib.Core.Logic.{◌≢◌}
use mathlib.Core.Bool.{Bool}
use mathlib.Core.Option.{Option, none, some}
use mathlib.Core.List.{List, [], ◌∷◌}
use text.Mathlib.Text.{◌==◌ as str_eq}
use octo_forge.Base.Tests.{leb, if◌then◌else◌}
use octo_forge.Base.Lists.{All}

module _ {ℓ} {A : Type ℓ} where
  -- SELECT .. WHERE p
  abbrev pub select_where : (A → Bool) → List A → List A
  select_where p [] = []
  select_where p (r ∷ rows) = let rest = select_where p rows in if p r then r ∷ rest else rest

  -- SELECT .. WHERE p LIMIT 1
  abbrev pub first_where : (A → Bool) → List A → Option A
  first_where p [] = none
  first_where p (r ∷ rows) = if p r then some r else first_where p rows

  -- UPDATE .. WHERE p: the table afterwards
  abbrev pub update_where : (A → Bool) → (A → A) → List A → List A
  update_where p f [] = []
  update_where p f (r ∷ rows) = (if p r then f r else r) ∷ update_where p f rows

  -- the row count of a statement with `WHERE p`
  abbrev pub count_where : (A → Bool) → List A → ℕ
  count_where p [] = 0
  count_where p (r ∷ rows) = (if p r then 1 else 0) + count_where p rows

  -- DELETE .. WHERE p: the table afterwards
  abbrev pub delete_where : (A → Bool) → List A → List A
  delete_where p [] = []
  delete_where p (r ∷ rows) = let rest = delete_where p rows in if p r then rest else r ∷ rest

  -- ORDER BY, `before` saying which of two rows comes first
  abbrev pub insert_with : (A → A → Bool) → A → List A → List A
  insert_with before r [] = r ∷ []
  insert_with before r (s ∷ rows) =
      if before r s then r ∷ (s ∷ rows) else s ∷ insert_with before r rows

  abbrev pub order_with : (A → A → Bool) → List A → List A
  order_with before [] = []
  order_with before (r ∷ rows) = insert_with before r (order_with before rows)

  -- ORDER BY an ascending column
  abbrev pub order_by : (A → ℕ) → List A → List A
  order_by c = order_with (λ r s. leb (c r) (c s))

  -- the row with the given primary key
  abbrev pub get_by : (A → String) → String → List A → Option A
  get_by key k = first_where (λ r. str_eq (key r) k)

  -- no two rows share the primary key
  abbrev pub IsKeyed : (A → String) → List A → Type 0
  IsKeyed key [] = Unit
  IsKeyed key (r ∷ rows) = All (λ s. key s ≢ key r) rows × IsKeyed key rows

  -- rows in ascending order of a column
  abbrev pub IsOrdered : (A → ℕ) → List A → Type 0
  IsOrdered c [] = Unit
  IsOrdered c (r ∷ rows) = All (λ s. c r ≤ c s) rows × IsOrdered c rows
