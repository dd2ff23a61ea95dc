-- ===== src/Net/Eviction.antt =====
-- What `store` of core/src/octoforge_core/net/response_memory.py keeps when it is over the budget.
use octo_forge.Base.{
  ℕ, zero, suc, ◌≤◌, String, Bool, true, false, not, Option, none, some, [], ◌∷◌, ◌++◌, str_eq,
  eq_iff, ltb, if◌then◌else◌, length, select_where, delete_where, IsKeyed, All, ◌≡◌, ◌≢◌, refl, sym,
  ap, ◌∙◌, subst, arith, Bool-cases, inl, inr, ◌⊎◌, any, delete-IsKeyed, select-append,
}
use octo_forge.Net.Responses.{
  StoredResponse, Responses, total_chars, oldest_of, victim, evict_rounds,
}
use octo_forge.Net.Removals.{
  oldest_of-All, has_id, oldest_of-has, select-delete, select-All, delete-All, length-remove_mine,
  others_apart,
}
use octo_forge.Net.Rounds.{
  victim-none, victim-oldest, only_stays, victim-absent, evict_stops, evict_goes,
}

module _ (p : StoredResponse → Bool) (budget : ℕ) where
  -- the deletion of one round
  victim_in :
      (items : Responses) (r : StoredResponse)
      → victim budget (select_where p items) ≡ some r
      → any (has_id r.id) (select_where p items) ≡ true
  victim_in items r h = go (select_where p items) h
    where
      go : (mine : Responses) → victim budget mine ≡ some r → any (has_id r.id) mine ≡ true
      go [] e = absurd (victim-absent budget r e)
      go (m ∷ rows) e = oldest_of-has m rows r.id (ap (λ y. y.id) (victim-oldest budget m rows r e))

  -- What holds of the dictionary and stays so when the oldest item is deleted holds at the end.
  pub evict_keeps {ℓ} :
      (P : Responses → Type ℓ)
      → ((items : Responses) (r : StoredResponse)
          → IsKeyed (λ x. x.id) items
          → victim budget (select_where p items) ≡ some r
          → P items
          → P (delete_where (has_id r.id) items))
      → (rounds : ℕ) (items : Responses) → IsKeyed (λ x. x.id) items
      → P items
      → P (evict_rounds rounds budget (select_where p items) items)
  evict_keeps P round zero items k h = unfold evict_rounds in h
  evict_keeps P round (suc rounds) items k h =
      go (evict_keeps P round rounds) (victim budget (select_where p items)) refl
    where
      go :
          ((rest : Responses)
            → IsKeyed (λ x. x.id) rest
            → P rest
            → P (evict_rounds rounds budget (select_where p rest) rest))
          → (o : Option StoredResponse) → victim budget (select_where p items) ≡ o
          → P (evict_rounds (suc rounds) budget (select_where p items) items)
      go ih none e = subst P (sym (evict_stops rounds budget (select_where p items) items e)) h
      go ih (some r) e = subst P (sym (evict_goes p rounds budget items r k e)) (
          ih (delete_where (has_id r.id) items) (delete-IsKeyed (λ x. x.id) (has_id r.id) items k)
            (round items r k e h))

  none_left : (rows : Responses) → length rows ≤ 0 → total_chars rows ≤ budget
  unfolding total_chars
  none_left [] h = omega arith
  none_left (r ∷ rows) h = absurd (omega arith)

  -- The loop has ended by its tests.
  abbrev pub IsWithin : Responses → Type 0
  IsWithin items =
      (total_chars (select_where p items) ≤ budget) ⊎ (length (select_where p items) ≡ 1)

  -- As many rounds as the owner has items are enough.
  pub evict-IsWithin :
      (rounds : ℕ) (items : Responses)
      → IsKeyed (λ x. x.id) items
      → length (select_where p items) ≤ rounds
      → IsWithin (evict_rounds rounds budget (select_where p items) items)
  evict-IsWithin zero items k h = inl (unfold evict_rounds in none_left (select_where p items) h)
  evict-IsWithin (suc rounds) items k h =
      go (evict-IsWithin rounds) (victim budget (select_where p items)) refl
    where
      go :
          ((rest : Responses)
            → IsKeyed (λ x. x.id) rest
            → length (select_where p rest) ≤ rounds
            → IsWithin (evict_rounds rounds budget (select_where p rest) rest))
          → (o : Option StoredResponse) → victim budget (select_where p items) ≡ o
          → IsWithin (evict_rounds (suc rounds) budget (select_where p items) items)
      go ih none e =
          subst IsWithin (sym (evict_stops rounds budget (select_where p items) items e))
            (victim-none budget (select_where p items) e)
      go ih (some r) e = subst IsWithin (sym (evict_goes p rounds budget items r k e)) (
          ih (delete_where (has_id r.id) items) (delete-IsKeyed (λ x. x.id) (has_id r.id) items k)
            (omega (arith, h, length-remove_mine p r.id items k (victim_in items r e))))

  -- Other owners lose nothing.
  pub evict_others :
      (rounds : ℕ) (items : Responses)
      → IsKeyed (λ x. x.id) items
      → select_where (λ r. not (p r)) (evict_rounds rounds budget (select_where p items) items)
        ≡ select_where (λ r. not (p r)) items
  evict_others rounds items k =
      evict_keeps (λ rest. select_where (λ r. not (p r)) rest ≡ select_where (λ r. not (p r)) items)
        (λ rest r k' e h.
          select-delete (λ x. not (p x)) (has_id r.id) rest
          ∙ others_apart r.id p rest k' (victim_in rest r e)
          ∙ h)
        rounds items k refl

oldest_of-snoc :
    (m : StoredResponse) (rows : Responses) (new : StoredResponse)
    → (oldest_of m rows).last_access ≤ new.last_access
    → oldest_of m (rows ++ new ∷ []) ≡ oldest_of m rows
unfolding oldest_of
oldest_of-snoc m [] new h = ground arith
oldest_of-snoc m (x ∷ rows) new h =
    oldest_of-snoc (if ltb x.last_access m.last_access then x else m) rows new h

delete-snoc :
    (id : String) (rows : Responses) (new : StoredResponse)
    → str_eq new.id id ≡ false
    → delete_where (has_id id) (rows ++ new ∷ []) ≡ delete_where (has_id id) rows ++ new ∷ []
delete-snoc id [] new h = ground (arith, h)
delete-snoc id (r ∷ rows) new h = ground (arith, delete-snoc id rows new h)

-- The dictionary ends with the newest item, which no other has the id of and none was touched after.
abbrev pub EndsWith : StoredResponse → Responses → Type 0
EndsWith new items =
    (rest : Responses) × (items ≡ rest ++ new ∷ [])
    × All (λ r. (r.id ≢ new.id) × (r.last_access ≤ new.last_access)) rest

pub newest_round :
    (p : StoredResponse → Bool) (budget : ℕ) (new : StoredResponse) (items : Responses)
    (r : StoredResponse)
    → p new ≡ true
    → victim budget (select_where p items) ≡ some r
    → EndsWith new items
    → EndsWith new (delete_where (has_id r.id) items)
newest_round p budget new items r here e (rest, parts, h) = (
  delete_where (has_id r.id) rest,
  ap (delete_where (has_id r.id)) parts ∙ delete-snoc r.id rest new other,
  delete-All (λ x. (x.id ≢ new.id) × (x.last_access ≤ new.last_access)) (has_id r.id) rest h,
)
  where
    mine : select_where p items ≡ select_where p rest ++ new ∷ []
    mine =
        ap (select_where p) parts
        ∙ select-append p rest (new ∷ [])
        ∙ ap (λ l. select_where p rest ++ l) (rw here refl)

    apart :
        (l : Responses)
        → All (λ x. (x.id ≢ new.id) × (x.last_access ≤ new.last_access)) l
        → victim budget (l ++ new ∷ []) ≡ some r
        → r.id ≢ new.id
    apart [] a v = absurd (only_stays budget new r v)
    apart (m ∷ l) a v =
        let of_l = oldest_of-All (λ x. (x.id ≢ new.id) × (x.last_access ≤ new.last_access)) m l a in
        let same : r ≡ oldest_of m l =
          victim-oldest budget m (l ++ new ∷ []) r v ∙ oldest_of-snoc m l new of_l.1 in
        subst (λ y. y.id ≢ new.id) (sym same) of_l.0

    other : str_eq new.id r.id ≡ false
    other = elim (Bool-cases (str_eq new.id r.id)) [
      | inl q ↦ absurd (
          apart (select_where p rest) (select-All _ p rest h)
            (subst (λ l. victim budget l ≡ some r) mine e) (sym ((eq_iff new.id r.id).0 q)))
      | inr q ↦ q
    ]
