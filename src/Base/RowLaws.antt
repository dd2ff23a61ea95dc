-- ===== src/Base/RowLaws.antt =====
-- Which row a primary key finds after the statements of `Base.Rows`.
use mathlib.Core.Path.{◌≡◌, refl, sym, ◌∙◌}
use mathlib.Core.Logic.{◌≢◌, inl, inr}
use mathlib.Core.Bool.{Bool, true, false, ◌&&◌}
use mathlib.Core.Option.{Option, none, some}
use mathlib.Core.Option
use mathlib.Core.List.{List, [], ◌∷◌, ◌++◌}
use Prim.Native.String.{String}
use text.Mathlib.Text.{◌==◌ as str_eq}
use text.Mathlib.TextEquality.{eq_iff}
use native.Mathlib.Omega.{arith}
use octo_forge.Base.Tests.{if◌then◌else◌, opt_test, Bool-cases}
use octo_forge.Base.Lists.{All, All-weaken}
use octo_forge.Base.Rows.{first_where, update_where, count_where, delete_where, get_by, IsKeyed}

-- What an UPDATE does to one row.
abbrev pub touched {ℓ} : {A : Type ℓ} → (A → Bool) → (A → A) → A → A
touched p f r = if p r then f r else r

module _ {ℓ} {A : Type ℓ} (key : A → String) where
  -- An UPDATE that keeps the primary keys changes each row in its place.
  pub get-update :
      (k : String) (p : A → Bool) (f : A → A) (rows : List A)
      → ((r : A) → key (f r) ≡ key r)
      → get_by key k (update_where p f rows) ≡ Option.map (touched p f) (get_by key k rows)
  get-update k p f [] keeps = refl
  get-update k p f (r ∷ rows) keeps =
      ground (arith, keeps r, eq_iff (key r) k, eq_iff (key (f r)) k, get-update k p f rows keeps)

  pub get-absent :
      (k : String) (rows : List A) → All (λ s. key s ≢ k) rows → get_by key k rows ≡ none
  get-absent k [] h = refl
  get-absent k (r ∷ rows) h = ground (arith, eq_iff (key r) k, get-absent k rows h.1)

  -- A row that a lookup returns has the key that was asked for.
  pub key-get : (k : String) (rows : List A) (r : A) → get_by key k rows ≡ some r → key r ≡ k
  key-get k [] r h = ground arith
  key-get k (x ∷ rows) r h = ground (arith, eq_iff (key x) k, key-get k rows r)

  pub count-absent :
      (k : String) (p : A → Bool) (rows : List A)
      → All (λ s. key s ≢ k) rows
      → count_where (λ r. str_eq (key r) k && p r) rows ≡ 0
  count-absent k p [] h = refl
  count-absent k p (r ∷ rows) h = ground (arith, eq_iff (key r) k, count-absent k p rows h.1)

  -- Behind the row with key `k`, no other row of a keyed table has it.
  pub absent_behind :
      (k : String) (r : A) (rows : List A)
      → IsKeyed key (r ∷ rows)
      → (str_eq (key r) k) ≡ true
      → All (λ s. key s ≢ k) rows
  absent_behind k r rows h e =
      All-weaken (λ s ne same. ne (same ∙ sym ((eq_iff (key r) k).0 e))) rows h.0

  -- The row count of a statement on one primary key says whether the row is there and passes.
  pub count-get :
      (k : String) (p : A → Bool) (rows : List A)
      → IsKeyed key rows
      → count_where (λ r. str_eq (key r) k && p r) rows
        ≡ (if opt_test p (get_by key k rows) then 1 else 0)
  count-get k p [] h = refl
  count-get k p (r ∷ rows) h = elim (Bool-cases (str_eq (key r) k)) [
    | inl same ↦ ground (arith, same, count-absent k p rows (absent_behind k r rows h same))
    | inr other ↦ ground (arith, other, count-get k p rows h.1)
  ]

  first-absent :
      (k : String) (p : A → Bool) (rows : List A)
      → All (λ s. key s ≢ k) rows
      → first_where (λ r. str_eq (key r) k && p r) rows ≡ none
  first-absent k p [] h = refl
  first-absent k p (r ∷ rows) h = ground (arith, eq_iff (key r) k, first-absent k p rows h.1)

  -- the row of a statement with RETURNING on one primary key
  pub first-get :
      (k : String) (p : A → Bool) (rows : List A)
      → IsKeyed key rows
      → first_where (λ r. str_eq (key r) k && p r) rows
        ≡ (if opt_test p (get_by key k rows) then get_by key k rows else none)
  first-get k p [] h = refl
  first-get k p (r ∷ rows) h = elim (Bool-cases (str_eq (key r) k)) [
    | inl same ↦ ground (arith, same, first-absent k p rows (absent_behind k r rows h same))
    | inr other ↦ ground (arith, other, first-get k p rows h.1)
  ]

  pub get-delete_absent :
      (k : String) (p : A → Bool) (rows : List A)
      → All (λ s. key s ≢ k) rows
      → get_by key k (delete_where p rows) ≡ none
  get-delete_absent k p [] h = refl
  get-delete_absent k p (r ∷ rows) h =
      ground (arith, eq_iff (key r) k, get-delete_absent k p rows h.1)

  -- A DELETE takes away the row with key `k` if it passes.
  pub get-delete :
      (k : String) (p : A → Bool) (rows : List A)
      → IsKeyed key rows
      → get_by key k (delete_where p rows)
        ≡ (if opt_test p (get_by key k rows) then none else get_by key k rows)
  get-delete k p [] h = refl
  get-delete k p (r ∷ rows) h = elim (Bool-cases (str_eq (key r) k)) [
    | inl same ↦ ground (arith, same, get-delete_absent k p rows (absent_behind k r rows h same))
    | inr other ↦ ground (arith, other, get-delete k p rows h.1)
  ]

  All-update :
      (k : String) (p : A → Bool) (f : A → A) (rows : List A)
      → ((r : A) → key (f r) ≡ key r)
      → All (λ s. key s ≢ k) rows
      → All (λ s. key s ≢ k) (update_where p f rows)
  All-update k p f [] keeps h = tt
  All-update k p f (r ∷ rows) keeps h = (
    elim (p r) as (λ b. key (if b then f r else r) ≢ k) [ true ↦ rw keeps h.0 | false ↦ h.0 ],
    All-update k p f rows keeps h.1,
  )

  pub update-IsKeyed :
      (p : A → Bool) (f : A → A) (rows : List A)
      → ((r : A) → key (f r) ≡ key r)
      → IsKeyed key rows
      → IsKeyed key (update_where p f rows)
  update-IsKeyed p f [] keeps h = tt
  update-IsKeyed p f (r ∷ rows) keeps h = (
    elim (p r) as (λ b. All (λ s. key s ≢ key (if b then f r else r)) (update_where p f rows)) [
      | true ↦ rw keeps (All-update (key r) p f rows keeps h.0)
      | false ↦ All-update (key r) p f rows keeps h.0
    ],
    update-IsKeyed p f rows keeps h.1,
  )

  All-delete :
      (k : String) (p : A → Bool) (rows : List A)
      → All (λ s. key s ≢ k) rows
      → All (λ s. key s ≢ k) (delete_where p rows)
  All-delete k p [] h = tt
  All-delete k p (r ∷ rows) h =
      elim (p r)
        as (λ b.
          All (λ s. key s ≢ k) (if b then delete_where p rows else r ∷ delete_where p rows)) [
            | true ↦ All-delete k p rows h.1
            | false ↦ (h.0, All-delete k p rows h.1)
          ]

  pub delete-IsKeyed :
      (p : A → Bool) (rows : List A) → IsKeyed key rows → IsKeyed key (delete_where p rows)
  delete-IsKeyed p [] h = tt
  delete-IsKeyed p (r ∷ rows) h =
      elim (p r)
        as (λ b. IsKeyed key (if b then delete_where p rows else r ∷ delete_where p rows)) [
          | true ↦ delete-IsKeyed p rows h.1
          | false ↦ (All-delete (key r) p rows h.0, delete-IsKeyed p rows h.1)
        ]

  pub absent_of_get :
      (k : String) (rows : List A) → get_by key k rows ≡ none → All (λ s. key s ≢ k) rows
  absent_of_get k [] h = tt
  absent_of_get k (r ∷ rows) h = ground (arith, eq_iff (key r) k, absent_of_get k rows)

module _ {ℓ} {A : Type ℓ} (key : A → String) where
  pub get-append :
      (k : String) (xs : List A) (t : A)
      → get_by key k (xs ++ t ∷ []) ≡ (
          if opt_test (λ _. true) (get_by key k xs)
          then get_by key k xs
          else if str_eq (key t) k
          then some t
          else none)
  get-append k [] t = refl
  get-append k (x ∷ xs) t = ground (arith, get-append k xs t)

  pub get-append_ne :
      (k : String) (xs : List A) (t : A) → key t ≢ k → get_by key k (xs ++ t ∷ []) ≡ get_by key k xs
  get-append_ne k [] t ne = ground (arith, eq_iff (key t) k)
  get-append_ne k (x ∷ xs) t ne = ground (arith, get-append_ne k xs t ne)

  All-snoc :
      (k : String) (rows : List A) (t : A)
      → key t ≢ k
      → All (λ s. key s ≢ k) rows
      → All (λ s. key s ≢ k) (rows ++ t ∷ [])
  All-snoc k [] t ne h = (ne, tt)
  All-snoc k (r ∷ rows) t ne h = (h.0, All-snoc k rows t ne h.1)

  -- An INSERT of a row whose key is not taken keeps the table keyed.
  pub append-IsKeyed :
      (rows : List A) (t : A)
      → All (λ s. key s ≢ key t) rows
      → IsKeyed key rows
      → IsKeyed key (rows ++ t ∷ [])
  append-IsKeyed [] t fresh h = (tt, tt)
  append-IsKeyed (r ∷ rows) t fresh h =
      (All-snoc (key r) rows t (λ e. fresh.0 (sym e)) h.0, append-IsKeyed rows t fresh.1 h.1)
