-- ===== src/Net/Oldest.antt =====
-- Which documents `store` of core/src/octoforge_core/net/response_memory.py drops.
use octo_forge.Base.{
  ℕ, ◌≤◌, String, Bool, true, false, none, some, [], ◌∷◌, ◌++◌, str_eq, eq_iff, length,
  select_where, delete_where, get_by, IsKeyed, All, All-weaken, ◌≡◌, ◌≢◌, refl, sym, ap, ◌∙◌, subst,
  arith, Bool-cases, inl, inr, ◌⊎◌, get-append,
}
use octo_forge.Net.Responses.{StoredResponse, Responses, oldest_of, victim, is_of, evict, store}
use octo_forge.Net.Removals.{
  oldest_of-least, oldest_of-All, has_id, select-All, delete-All, select-delete,
}
use octo_forge.Net.Rounds.{victim-oldest, victim-absent}
use octo_forge.Net.Eviction.{evict_keeps}
use octo_forge.Net.Budget.{IsNewest, stored-IsKeyed, store-evict}

get-delete_other :
    (id k : String) (rows : Responses)
    → str_eq id k ≡ false
    → get_by (λ r. r.id) id (delete_where (has_id k) rows) ≡ get_by (λ r. r.id) id rows
get-delete_other id k [] h = refl
get-delete_other id k (r ∷ rows) h =
    ground (arith, h, eq_iff r.id k, eq_iff r.id id, eq_iff id k, get-delete_other id k rows h)

-- A row with the key of the row that a lookup finds is that row.
only_get :
    (id : String) (rows : Responses) (x : StoredResponse)
    → IsKeyed (λ r. r.id) rows
    → get_by (λ r. r.id) id rows ≡ some x
    → All (λ r. (str_eq r.id id ≡ false) ⊎ (r ≡ x)) rows
only_get id [] x k h = tt
only_get id (r ∷ rows) x k h = elim (Bool-cases (str_eq r.id id)) [
  | inl e ↦ (inr (ground (arith, e, h)), All-weaken (λ s ne. inl (apart s ne e)) rows k.0)
  | inr e ↦ (inl e, only_get id rows x k.1 (ground (arith, e, h)))
]
  where
    apart : (s : StoredResponse) → s.id ≢ r.id → str_eq r.id id ≡ true → str_eq s.id id ≡ false
    apart s ne e = elim (Bool-cases (str_eq s.id id)) [
      | inl q ↦ absurd (ne ((eq_iff s.id id).0 q ∙ sym ((eq_iff r.id id).0 e)))
      | inr q ↦ q
    ]

-- Either the document is still there, or what is left was touched no earlier.
abbrev IsBefore : (StoredResponse → Bool) → String → StoredResponse → Responses → Type 0
IsBefore p id x rows =
    (get_by (λ r. r.id) id rows ≡ some x)
    ⊎ All (λ r. x.last_access ≤ r.last_access) (select_where p rows)

victim-IsBefore :
    (p : StoredResponse → Bool) (budget : ℕ) (id : String) (x : StoredResponse) (rows : Responses)
    (v : StoredResponse)
    → IsKeyed (λ r. r.id) rows
    → victim budget (select_where p rows) ≡ some v
    → IsBefore p id x rows
    → IsBefore p id x (delete_where (has_id v.id) rows)
victim-IsBefore p budget id x rows v k e (inr h) = inr (
    subst (All (λ r. x.last_access ≤ r.last_access)) (sym (select-delete p (has_id v.id) rows))
      (delete-All (λ r. x.last_access ≤ r.last_access) (has_id v.id) (select_where p rows) h))
victim-IsBefore p budget id x rows v k e (inl h) = elim (Bool-cases (str_eq id v.id)) [
  | inr other ↦ inl (get-delete_other id v.id rows other ∙ h)
  | inl same ↦ inr (
      subst (All (λ r. x.last_access ≤ r.last_access)) (sym (select-delete p (has_id v.id) rows)) (
        delete-All (λ r. x.last_access ≤ r.last_access) (has_id v.id) (select_where p rows)
          (least same (select_where p rows)
            (select-All (λ r. (str_eq r.id id ≡ false) ⊎ (r ≡ x)) p rows (only_get id rows x k h))
            e)))
]
  where
    least :
        str_eq id v.id ≡ true
        → (mine : Responses) → All (λ r. (str_eq r.id id ≡ false) ⊎ (r ≡ x)) mine
        → victim budget mine ≡ some v
        → All (λ r. x.last_access ≤ r.last_access) mine
    least same [] a f = absurd (victim-absent budget v f)
    least same (m ∷ mine) a f =
        let is_v : v ≡ oldest_of m mine = victim-oldest budget m mine v f in
        let found = oldest_of-All (λ r. (str_eq r.id id ≡ false) ⊎ (r ≡ x)) m mine a in
        let is_x : oldest_of m mine ≡ x = elim found [
          | inl no_match ↦ absurd (
              ground (
                arith,
                no_match,
                ap (λ r. r.id) is_v,
                eq_iff id v.id,
                eq_iff (oldest_of m mine).id id,
                same,
              ))
          | inr yes_x ↦ yes_x
        ] in
        oldest_of-least m mine x.last_access (ap (λ r. r.last_access) (sym is_x))

-- The documents that are dropped for the budget are the ones that were touched longest ago: when a
-- document that was there is gone after another is stored under a new id, no earlier than any was touched,
-- each document that the owner of the new one still has was touched no earlier than it.
pub dropped_are_oldest :
    (item : StoredResponse) (budget : ℕ) (items : Responses) (id : String) (x : StoredResponse)
    → IsKeyed (λ r. r.id) items
    → IsNewest item items
    → get_by (λ r. r.id) id items ≡ some x
    → get_by (λ r. r.id) id (store item budget items) ≡ none
    → All
        (λ r. x.last_access ≤ r.last_access)
        (select_where (is_of item.owner_id) (store item budget items))
unfolding evict
dropped_are_oldest item budget items id x k h there gone = finish kept
  where
    before : Responses
    before = items ++ item ∷ []

    kept : IsBefore (is_of item.owner_id) id x (evict item.owner_id budget before)
    kept =
        evict_keeps (is_of item.owner_id) budget (IsBefore (is_of item.owner_id) id x)
          (λ rest v k' e w. victim-IsBefore (is_of item.owner_id) budget id x rest v k' e w)
          (length (select_where (is_of item.owner_id) before)) before
          (stored-IsKeyed item items k h)
          (inl (get-append (λ r. r.id) id items item ∙ rw there refl))

    clash : none ≢ some x
    clash e = ground (arith, e)

    finish :
        IsBefore (is_of item.owner_id) id x (evict item.owner_id budget before)
        → All
            (λ r. x.last_access ≤ r.last_access)
            (select_where (is_of item.owner_id) (store item budget items))
    finish (inr a) =
        subst (λ l. All (λ r. x.last_access ≤ r.last_access) (select_where (is_of item.owner_id) l))
          (sym (store-evict item budget items h)) a
    finish (inl e) =
        absurd (clash (sym gone ∙ ap (get_by (λ r. r.id) id) (store-evict item budget items h) ∙ e))
