-- ===== src/Base/Orders.antt =====
-- ORDER BY and WHERE together, over tables that grow at their end, and lists in strictly ascending
-- order of a column.
use Prim.Native.Nat.{ℕ, zero, suc, ◌≤◌, ◌<◌}
use mathlib.Core.Path.{◌≡◌, refl, sym, ap, ◌∙◌, subst}
use mathlib.Core.Logic.{◌≢◌, inl, inr}
use mathlib.Core.Bool.{Bool, true, false, ◌&&◌, ◌||◌}
use mathlib.Core.Option.{some, some_inj}
use mathlib.Core.List.{List, [], ◌∷◌, ◌++◌}
use native.Mathlib.Omega.{arith}
use octo_forge.Base.Tests.{ltb, leb, if◌then◌else◌, Bool-cases, leb→le}
use octo_forge.Base.Lists.{drop, get_elem?, any, All, All-weaken, All-get_elem?}
use octo_forge.Base.Rows.{select_where, insert_with, order_by, IsOrdered}
use octo_forge.Base.Counts.{insert-All, order-All, order-IsOrdered}

module _ {ℓ} {A : Type ℓ} where
  pub select-append :
      (p : A → Bool) (xs ys : List A)
      → select_where p (xs ++ ys) ≡ select_where p xs ++ select_where p ys
  select-append p [] ys = refl
  select-append p (x ∷ xs) ys = ground (arith, select-append p xs ys)

  pub any-append : (p : A → Bool) (xs ys : List A) → any p (xs ++ ys) ≡ (any p xs || any p ys)
  any-append p [] ys = refl
  any-append p (x ∷ xs) ys = ground (arith, any-append p xs ys)

  -- A narrower selection selects from the wider one.
  pub select-select :
      (p q s : A → Bool) (rows : List A)
      → ((r : A) → s r ≡ (p r && q r))
      → select_where s rows ≡ select_where q (select_where p rows)
  select-select p q s [] h = refl
  select-select p q s (r ∷ rows) h = ground (arith, h r, select-select p q s rows h)

  pub select-none :
      (p : A → Bool) (rows : List A) → All (λ r. p r ≡ false) rows → select_where p rows ≡ []
  select-none p [] h = refl
  select-none p (r ∷ rows) h = ground (arith, h.0, select-none p rows h.1)

  pub select_passing :
      (p : A → Bool) (rows : List A) → All (λ r. p r ≡ true) rows → select_where p rows ≡ rows
  select_passing p [] h = refl
  select_passing p (r ∷ rows) h = ground (arith, h.0, select_passing p rows h.1)

module _ {ℓ} {A : Type ℓ} (c : A → ℕ) where
  insert-behind :
      (r : A) (rows : List A) (x : A)
      → c r ≤ c x
      → insert_with (λ a b. leb (c a) (c b)) r (rows ++ x ∷ [])
        ≡ insert_with (λ a b. leb (c a) (c b)) r rows ++ x ∷ []
  insert-behind r [] x le = ground arith
  insert-behind r (s ∷ rows) x le = ground (arith, insert-behind r rows x le)

  -- A row at the end whose column is highest comes last.
  pub order-append :
      (rows : List A) (x : A)
      → All (λ r. c r ≤ c x) rows
      → order_by c (rows ++ x ∷ []) ≡ order_by c rows ++ x ∷ []
  order-append [] x h = refl
  order-append (r ∷ rows) x h =
      ap (insert_with (λ a b. leb (c a) (c b)) r) (order-append rows x h.1)
      ∙ insert-behind r (order_by c rows) x h.0

  insert-front :
      (r : A) (rows : List A)
      → All (λ s. c r ≤ c s) rows
      → insert_with (λ a b. leb (c a) (c b)) r rows ≡ r ∷ rows
  insert-front r [] h = refl
  insert-front r (s ∷ rows) h = ground (arith, h.0)

module _ {ℓ} {A : Type ℓ} (c : A → ℕ) (p : A → Bool) where
  select-All-kept :
      (r : A) (rows : List A)
      → All (λ s. c r ≤ c s) rows
      → All (λ s. c r ≤ c s) (select_where p rows)
  select-All-kept r [] h = tt
  select-All-kept r (s ∷ rows) h =
      elim (p s)
        as (λ b.
          All (λ s. c r ≤ c s) (if b then s ∷ select_where p rows else select_where p rows)) [
            | true ↦ (h.0, select-All-kept r rows h.1)
            | false ↦ select-All-kept r rows h.1
          ]

  insert-select :
      (r : A) (rows : List A)
      → IsOrdered c rows
      → select_where p (insert_with (λ a b. leb (c a) (c b)) r rows) ≡ (
          if p r
          then insert_with (λ a b. leb (c a) (c b)) r (select_where p rows)
          else select_where p rows)
  insert-select r [] h = refl
  insert-select r (s ∷ rows) h = elim (Bool-cases (leb (c r) (c s))) [
    | inl first ↦ ground (
      arith,
      first,
      insert-front c r (select_where p rows)
          (select-All-kept r rows (All-weaken (λ x le. omega (arith, leb→le _ _ first)) rows h.0)),
    )
    | inr later ↦ ground (arith, later, insert-select r rows h.1)
  ]

  -- Ordering commutes with a selection.
  pub order-select :
      (rows : List A) → order_by c (select_where p rows) ≡ select_where p (order_by c rows)
  order-select [] = refl
  order-select (r ∷ rows) = sym (
      insert-select r (order_by c rows) (order-IsOrdered c rows)
      ∙ elim (p r)
          as (λ b.
            (if b
              then insert_with (λ a b. leb (c a) (c b)) r (select_where p (order_by c rows))
              else select_where p (order_by c rows))
            ≡ order_by c (if b then r ∷ select_where p rows else select_where p rows)) [
              | true ↦ ap (insert_with (λ a b. leb (c a) (c b)) r) (sym (order-select rows))
              | false ↦ sym (order-select rows)
            ])

-- rows in strictly ascending order of a column
abbrev pub IsAscending {ℓ} : {A : Type ℓ} → (A → ℕ) → List A → Type 0
IsAscending c [] = Unit
IsAscending c (r ∷ rows) = All (λ s. c r < c s) rows × IsAscending c rows

-- no two rows agree in a column
abbrev pub IsApart {ℓ} : {A : Type ℓ} → (A → ℕ) → List A → Type 0
IsApart c [] = Unit
IsApart c (r ∷ rows) = All (λ s. c s ≢ c r) rows × IsApart c rows

module _ {ℓ} {A : Type ℓ} (c : A → ℕ) where
  insert-IsAscending :
      (r : A) (rows : List A)
      → All (λ s. c s ≢ c r) rows
      → IsAscending c rows
      → IsAscending c (insert_with (λ a b. leb (c a) (c b)) r rows)
  insert-IsAscending r [] ne h = (tt, tt)
  insert-IsAscending r (s ∷ rows) ne h = elim (Bool-cases (leb (c r) (c s))) [
    | inl first ↦
        let below : c r < c s = omega (arith, leb→le _ _ first, ne.0) in
        rw first ((below, All-weaken (λ x lt. omega (arith, below)) rows h.0), h)
    | inr later ↦ rw later (
      insert-All (λ x. c s < c x) (λ a b. leb (c a) (c b)) r rows (ground (arith, ne.0)) h.0,
      insert-IsAscending r rows ne.1 h.1,
    )
  ]

  -- Rows that differ in a column are strictly ascending once they are ordered by it.
  pub order-IsAscending : (rows : List A) → IsApart c rows → IsAscending c (order_by c rows)
  order-IsAscending [] h = tt
  order-IsAscending (r ∷ rows) h =
      insert-IsAscending r (order_by c rows)
        (order-All (λ s. c s ≢ c r) (λ a b. leb (c a) (c b)) rows h.0) (order-IsAscending rows h.1)

  -- In an ascending list, the rows past the column of one row are the ones behind it.
  pub select-behind :
      (rows : List A) (j : ℕ) (m : A)
      → IsAscending c rows
      → get_elem? rows j ≡ some m
      → select_where (λ r. ltb (c m) (c r)) rows ≡ drop (suc j) rows
  select-behind [] j m h e = absurd (ground (arith, e))
  select-behind (x ∷ rows) zero m h e =
      subst (λ y. select_where (λ r. ltb (c y) (c r)) (x ∷ rows) ≡ rows) (some_inj.0 e)
        (ground (
          arith,
          select_passing (λ r. ltb (c x) (c r)) rows (All-weaken (λ s lt. ground arith) rows h.0),
        ))
  select-behind (x ∷ rows) (suc j) m h e =
      ground (arith, All-get_elem? (λ s. c x < c s) rows j m h.0 e, select-behind rows j m h.1 e)
