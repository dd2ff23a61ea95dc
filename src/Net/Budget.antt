-- ===== src/Net/Budget.antt =====
-- The budget of `store` in core/src/octoforge_core/net/response_memory.py.
use octo_forge.Base.{
  ℕ, ◌≤◌, Bool, true, not, [], ◌∷◌, ◌++◌, eq_iff, length, select_where, IsKeyed, All, All-weaken,
  ◌≡◌, ◌≢◌, refl, sym, ap, ◌∙◌, subst, arith, Bool-cases, inl, inr, ◌⊎◌, append-IsKeyed,
}
use octo_forge.Net.Responses.{StoredResponse, Responses, total_chars, is_of, evict, set_item, store}
use octo_forge.Net.Eviction.{evict_keeps, evict-IsWithin, evict_others, EndsWith, newest_round}

-- An item under a new id, stored no earlier than any other was touched.
abbrev pub IsNewest : StoredResponse → Responses → Type 0
IsNewest item items = All (λ r. (r.id ≢ item.id) × (r.last_access ≤ item.last_access)) items

set_item-new :
    (item : StoredResponse) (items : Responses)
    → IsNewest item items
    → set_item item items ≡ items ++ item ∷ []
unfolding set_item
set_item-new item [] h = refl
set_item-new item (r ∷ items) h =
    ground (arith, h.0.0, eq_iff r.id item.id, set_item-new item items h.1)

pub stored-IsKeyed :
    (item : StoredResponse) (items : Responses)
    → IsKeyed (λ r. r.id) items
    → IsNewest item items
    → IsKeyed (λ r. r.id) (items ++ item ∷ [])
stored-IsKeyed item items k h =
    append-IsKeyed (λ r. r.id) items item (All-weaken (λ r a. a.0) items h) k

pub store-evict :
    (item : StoredResponse) (budget : ℕ) (items : Responses)
    → IsNewest item items
    → store item budget items ≡ evict item.owner_id budget (items ++ item ∷ [])
unfolding store
store-evict item budget items h = ap (evict item.owner_id budget) (set_item-new item items h)

is_of_self : (r : StoredResponse) → is_of r.owner_id r ≡ true
is_of_self r = (eq_iff r.owner_id r.owner_id).1 refl

no_other :
    (p : StoredResponse → Bool) (rest : Responses) (item : StoredResponse)
    → p item ≡ true
    → length (select_where p (rest ++ item ∷ [])) ≡ 1
    → select_where p rest ≡ []
no_other p [] item here h = refl
no_other p (r ∷ rest) item here h = elim (Bool-cases (p r)) [
  | inr q ↦ ground (arith, q, no_other p rest item here (ground (arith, q, h)))
  | inl q ↦ absurd (some_left rest (ground (arith, q, h)))
]
  where
    some_left : (l : Responses) → length (select_where p (l ++ item ∷ [])) ≢ 0
    some_left [] e = ground (arith, here, e)
    some_left (x ∷ l) e = elim (Bool-cases (p x)) [
      | inl t ↦ ground (arith, t, e)
      | inr t ↦ some_left l (ground (arith, t, e))
    ]

-- The new document is kept.
pub store-EndsWith :
    (item : StoredResponse) (budget : ℕ) (items : Responses)
    → IsKeyed (λ r. r.id) items
    → IsNewest item items
    → EndsWith item (store item budget items)
unfolding evict
store-EndsWith item budget items k h =
    subst (EndsWith item) (sym (store-evict item budget items h)) (
      evict_keeps (is_of item.owner_id) budget (EndsWith item)
        (λ rest r k' e w.
          newest_round (is_of item.owner_id) budget item rest r (is_of_self item) e w)
        (length (select_where (is_of item.owner_id) (items ++ item ∷ []))) (items ++ item ∷ [])
        (stored-IsKeyed item items k h) (items, refl, h))

-- A document that is stored under a new id, no earlier than any other was touched, is kept. Afterwards its
-- owner's documents are within the budget or it is the only one of them, and the other owners have what
-- they had, in its order.
pub store_within_budget :
    (item : StoredResponse) (budget : ℕ) (items : Responses)
    → IsKeyed (λ r. r.id) items
    → IsNewest item items
    → (rest : Responses) × (store item budget items ≡ rest ++ item ∷ [])
      × ((total_chars (select_where (is_of item.owner_id) (rest ++ item ∷ [])) ≤ budget)
          ⊎ (select_where (is_of item.owner_id) rest ≡ []))
      × (select_where (λ r. not (is_of item.owner_id r)) rest
          ≡ select_where (λ r. not (is_of item.owner_id r)) items)
unfolding evict
store_within_budget item budget items k h =
    let newest = store-EndsWith item budget items k h in
    finish newest.0 (sym (store-evict item budget items h) ∙ newest.1)
  where
    p : StoredResponse → Bool
    p = is_of item.owner_id

    before : Responses
    before = items ++ item ∷ []

    keyed : IsKeyed (λ r. r.id) before
    keyed = stored-IsKeyed item items k h

    others :
        select_where (λ r. not (p r)) (evict item.owner_id budget before)
        ≡ select_where (λ r. not (p r)) before
    others = evict_others p budget (length (select_where p before)) before keyed

    unselected :
        (l : Responses)
        → select_where (λ r. not (p r)) (l ++ item ∷ []) ≡ select_where (λ r. not (p r)) l
    unselected [] = ground (arith, is_of_self item)
    unselected (r ∷ l) = ground (arith, unselected l)

    finish :
        (rest : Responses)
        → evict item.owner_id budget before ≡ rest ++ item ∷ []
        → (rest : Responses) × (store item budget items ≡ rest ++ item ∷ [])
          × ((total_chars (select_where (is_of item.owner_id) (rest ++ item ∷ [])) ≤ budget)
              ⊎ (select_where (is_of item.owner_id) rest ≡ []))
          × (select_where (λ r. not (is_of item.owner_id r)) rest
              ≡ select_where (λ r. not (is_of item.owner_id r)) items)
    finish rest e = (
      rest,
      store-evict item budget items h ∙ e,
      elim (evict-IsWithin p budget (length (select_where p before)) before keyed (omega arith)) [
        | inl le ↦ inl (subst (λ l. total_chars (select_where p l) ≤ budget) e le)
        | inr one ↦ inr (
            no_other p rest item (is_of_self item)
              (subst (λ l. length (select_where p l) ≡ 1) e one))
      ],
      sym (unselected rest)
          ∙ ap (select_where (λ r. not (p r))) (sym e)
          ∙ others
          ∙ unselected items,
    )
