-- ===== src/Base/Counts.antt =====
-- How often a row stands in what the statements of `Base.Rows` answer, and in which order.
use Prim.Native.Nat.{ℕ, zero, suc, ◌+◌, ◌≤◌}
use mathlib.Core.Path.{◌≡◌, refl}
use mathlib.Core.Logic.{◌≢◌, inl, inr}
use mathlib.Core.Bool.{Bool, true, false, not, ◌&&◌}
use mathlib.Core.Option.{some}
use mathlib.Core.List.{List, [], ◌∷◌, ◌++◌}
use Prim.Native.String.{String}
use text.Mathlib.TextEquality.{eq_iff}
use native.Mathlib.Omega.{arith}
use octo_forge.Base.Tests.{leb, if◌then◌else◌, Bool-cases, leb→le}
use octo_forge.Base.Lists.{length, take, All, All-weaken, All-take}
use octo_forge.Base.Rows.{
  select_where, update_where, count_where, delete_where, insert_with, order_with, order_by, get_by,
  IsKeyed, IsOrdered,
}
use octo_forge.Base.RowLaws.{touched}

module _ {ℓ} {A : Type ℓ} where
  pub count-append :
      (q : A → Bool) (xs ys : List A)
      → count_where q (xs ++ ys) ≡ count_where q xs + count_where q ys
  count-append q [] ys = omega arith
  count-append q (x ∷ xs) ys = omega (arith, count-append q xs ys)

  pub count-update :
      (p q : A → Bool) (f : A → A) (rows : List A)
      → count_where q (update_where p f rows) ≡ count_where (λ r. q (touched p f r)) rows
  count-update p q f [] = refl
  count-update p q f (r ∷ rows) = omega (arith, count-update p q f rows)

  pub count-delete :
      (p q : A → Bool) (rows : List A)
      → count_where q (delete_where p rows) ≡ count_where (λ r. not (p r) && q r) rows
  count-delete p q [] = refl
  count-delete p q (r ∷ rows) = ground (arith, count-delete p q rows)

  pub length-select :
      (p : A → Bool) (rows : List A) → length (select_where p rows) ≡ count_where p rows
  length-select p [] = refl
  length-select p (r ∷ rows) = ground (arith, length-select p rows)

  -- counting rows that nothing is asked of
  pub length-count : (rows : List A) → length rows ≡ count_where (λ _. true) rows
  length-count [] = refl
  length-count (r ∷ rows) = omega (arith, length-count rows)

  pub select-All : (p : A → Bool) (rows : List A) → All (λ r. p r ≡ true) (select_where p rows)
  select-All p [] = tt
  select-All p (r ∷ rows) = elim (Bool-cases (p r)) [
    | inl yes_ ↦ rw yes_ (yes_, select-All p rows)
    | inr no_ ↦ rw no_ (select-All p rows)
  ]

  -- Selected are the rows that pass, each as often as the table has it.
  pub count-select :
      (p q : A → Bool) (rows : List A)
      → count_where q (select_where p rows) ≡ count_where (λ r. p r && q r) rows
  count-select p q [] = refl
  count-select p q (r ∷ rows) = ground (arith, count-select p q rows)

  count-insert :
      (before : A → A → Bool) (q : A → Bool) (r : A) (rows : List A)
      → count_where q (insert_with before r rows) ≡ (if q r then 1 else 0) + count_where q rows
  count-insert before q r [] = refl
  count-insert before q r (s ∷ rows) = ground (arith, count-insert before q r rows)

  -- Ordering keeps each row as often as it was there.
  pub count-order :
      (before : A → A → Bool) (q : A → Bool) (rows : List A)
      → count_where q (order_with before rows) ≡ count_where q rows
  count-order before q [] = refl
  count-order before q (r ∷ rows) =
      omega (arith, count-insert before q r (order_with before rows), count-order before q rows)

module _ {ℓ κ} {A : Type ℓ} (P : A → Type κ) (before : A → A → Bool) where
  pub insert-All : (r : A) (rows : List A) → P r → All P rows → All P (insert_with before r rows)
  insert-All r [] p h = (p, tt)
  insert-All r (s ∷ rows) p h =
      elim (before r s)
        as (λ b. All P (if b then r ∷ (s ∷ rows) else s ∷ insert_with before r rows)) [
          | true ↦ (p, h)
          | false ↦ (h.0, insert-All r rows p h.1)
        ]

  pub order-All : (rows : List A) → All P rows → All P (order_with before rows)
  order-All [] h = tt
  order-All (r ∷ rows) h = insert-All r (order_with before rows) h.0 (order-All rows h.1)

module _ {ℓ} {A : Type ℓ} (c : A → ℕ) where
  insert-IsOrdered :
      (r : A) (rows : List A)
      → IsOrdered c rows
      → IsOrdered c (insert_with (λ a b. leb (c a) (c b)) r rows)
  insert-IsOrdered r [] h = (tt, tt)
  insert-IsOrdered r (s ∷ rows) h = elim (Bool-cases (leb (c r) (c s))) [
    | inl first ↦
        rw first
          ((leb→le _ _ first, All-weaken (λ x le. omega (arith, leb→le _ _ first)) rows h.0), h)
    | inr later ↦ rw later (
      insert-All (λ x. c s ≤ c x) (λ a b. leb (c a) (c b)) r rows (ground arith) h.0,
      insert-IsOrdered r rows h.1,
    )
  ]

  pub order-IsOrdered : (rows : List A) → IsOrdered c (order_by c rows)
  order-IsOrdered [] = tt
  order-IsOrdered (r ∷ rows) = insert-IsOrdered r (order_by c rows) (order-IsOrdered rows)

  pub take-IsOrdered : (n : ℕ) (rows : List A) → IsOrdered c rows → IsOrdered c (take n rows)
  take-IsOrdered zero rows h = tt
  take-IsOrdered (suc n) [] h = tt
  take-IsOrdered (suc n) (r ∷ rows) h =
      (All-take (λ s. c r ≤ c s) n rows h.0, take-IsOrdered n rows h.1)

module _ {ℓ κ} {A : Type ℓ} (P : A → Type κ) (p : A → Bool) where
  pub select-keeps : (rows : List A) → All P rows → All P (select_where p rows)
  select-keeps [] h = tt
  select-keeps (r ∷ rows) h =
      elim (p r) as (λ b. All P (if b then r ∷ select_where p rows else select_where p rows)) [
        | true ↦ (h.0, select-keeps rows h.1)
        | false ↦ select-keeps rows h.1
      ]

module _ {ℓ} {A : Type ℓ} (key : A → String) where
  found-cons :
      (r : A) (rows xs : List A)
      → All (λ x. key x ≢ key r) xs
      → All (λ x. get_by key (key x) rows ≡ some x) xs
      → All (λ x. get_by key (key x) (r ∷ rows) ≡ some x) xs
  found-cons r rows [] ne h = tt
  found-cons r rows (x ∷ xs) ne h =
      (ground (arith, ne.0, h.0, eq_iff (key r) (key x)), found-cons r rows xs ne.1 h.1)

  -- A lookup by the key of a selected row finds that row.
  pub select-found :
      (p : A → Bool) (rows : List A)
      → IsKeyed key rows
      → All (λ x. get_by key (key x) rows ≡ some x) (select_where p rows)
  select-found p [] h = tt
  select-found p (r ∷ rows) h =
      let rest =
        found-cons r rows (select_where p rows) (select-keeps (λ x. key x ≢ key r) p rows h.0)
          (select-found p rows h.1) in
      elim (p r)
        as (λ b.
          All (λ x. get_by key (key x) (r ∷ rows) ≡ some x)
            (if b then r ∷ select_where p rows else select_where p rows)) [
              | true ↦ (ground (arith, eq_iff (key r) (key r)), rest)
              | false ↦ rest
            ]
