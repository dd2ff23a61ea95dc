-- ===== src/Context/Reading.antt =====
-- What `[_to_chat_message(row) for row in rows]` and the like answer, as a relation between the rows and
-- the items that were read of them (dialogs/store.py and context/store.py, both under
-- core/src/octoforge_core).
use mathlib.Core.Option.{some_inj}
use octo_forge.Base.{
  ℕ, zero, suc, some, List, [], ◌∷◌, length, drop, get_elem?, Result, ok, err, ◌>>=◌, ◌≡◌, ◌≢◌,
  refl, ap, ◌∙◌, subst, arith,
}
use octo_forge.Domain.{ReadError}
use octo_forge.Dialogs.Log.{read_all}

abbrev pub items_of {ℓ} : {B : Type ℓ} → Result ReadError (List B) → List B
items_of (ok bs) = bs
items_of (err e) = []

no_items {ℓ} : {B : Type ℓ} (e : ReadError) (bs : List B) → err e ≢ ok bs
no_items e bs h = ground (arith, h)

module _ {ℓ κ} {A : Type ℓ} {B : Type κ} (f : A → Result ReadError B) where
  -- what was read of a list, item by item
  pub data ReadAs : List A → List B → Type (ℓ ⊔ κ) where
    nothing : ReadAs [] []
    item :
        (x : A) (b : B) (xs : List A) (bs : List B)
        → f x ≡ ok b
        → ReadAs xs bs
        → ReadAs (x ∷ xs) (b ∷ bs)

  pub read_as : (xs : List A) (bs : List B) → read_all f xs ≡ ok bs → ReadAs xs bs
  read_as [] bs e = subst (ReadAs []) (ap items_of e) nothing
  read_as (x ∷ xs) bs e = go (λ rest. read_as xs rest) (f x) (read_all f xs) refl refl e
    where
      go :
          ((rest : List B) → read_all f xs ≡ ok rest → ReadAs xs rest)
          → (o : Result ReadError B) (os : Result ReadError (List B)) → f x ≡ o
          → read_all f xs ≡ os
          → (o >>= λ b. os >>= λ rest. ok (b ∷ rest)) ≡ ok bs
          → ReadAs (x ∷ xs) bs
      go further (err z) os p q h = absurd (no_items z bs h)
      go further (ok b) (err z) p q h = absurd (no_items z bs h)
      go further (ok b) (ok rest) p q h =
          subst (ReadAs (x ∷ xs)) (ap items_of h) (item x b xs rest p (further rest q))

  pub read_of : (xs : List A) (bs : List B) → ReadAs xs bs → read_all f xs ≡ ok bs
  read_of xs bs nothing = refl
  read_of xs bs (item x b xs' bs' e r) = rw e (rw (read_of xs' bs' r) refl)

  pub length-ReadAs : (xs : List A) (bs : List B) → ReadAs xs bs → length bs ≡ length xs
  length-ReadAs xs bs nothing = refl
  length-ReadAs xs bs (item x b xs' bs' e r) = ap suc (length-ReadAs xs' bs' r)

  pub drop-ReadAs :
      (n : ℕ) (xs : List A) (bs : List B) → ReadAs xs bs → ReadAs (drop n xs) (drop n bs)
  drop-ReadAs zero xs bs r = r
  drop-ReadAs (suc n) xs bs nothing = nothing
  drop-ReadAs (suc n) xs bs (item x b xs' bs' e r) = drop-ReadAs n xs' bs' r

  -- the row that an item was read of
  pub read_from :
      (xs : List A) (bs : List B)
      → ReadAs xs bs
      → (j : ℕ) (b : B) → get_elem? bs j ≡ some b
      → (x : A) × (get_elem? xs j ≡ some x) × (f x ≡ ok b)
  read_from xs bs nothing j b e = absurd (ground (arith, e))
  read_from xs bs (item x b' xs' bs' h r) zero b e = (x, refl, h ∙ ap ok (some_inj.0 e))
  read_from xs bs (item x b' xs' bs' h r) (suc j) b e = read_from xs' bs' r j b e
