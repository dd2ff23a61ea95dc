-- ===== src/Net/Rounds.antt =====
-- One round of `_evict` in core/src/octoforge_core/net/response_memory.py.
use octo_forge.Base.{
  ℕ, suc, ◌≤◌, Bool, none, some, [], ◌∷◌, leb, ◌==◌, length, select_where, delete_where, IsKeyed,
  ◌≡◌, ◌≢◌, ap, ◌∙◌, arith, Bool-cases, inl, inr, ◌⊎◌, leb→le, ==_iff,
}
use octo_forge.Net.Responses.{
  StoredResponse, Responses, total_chars, oldest_of, oldest, remove, victim, evict_rounds,
}
use octo_forge.Net.Removals.{has_id, remove_mine}

-- Where the loop of `_evict` ends by its tests, the owner is within the budget or has one item.
pub victim-none :
    (budget : ℕ) (mine : Responses)
    → victim budget mine ≡ none
    → (total_chars mine ≤ budget) ⊎ (length mine ≡ 1)
unfolding victim oldest
victim-none budget [] h = inl (unfold total_chars in omega arith)
victim-none budget (m ∷ rows) h = elim (Bool-cases (leb (total_chars (m ∷ rows)) budget)) [
  | inl e ↦ inl (leb→le _ _ e)
  | inr e ↦ elim (Bool-cases (length (m ∷ rows) == 1)) [
    | inl d ↦ inr ((==_iff _ _).0 d)
    | inr d ↦ absurd (ground (arith, e, d, h))
  ]
]

-- What is deleted is the oldest, and never an only item.
pub victim-oldest :
    (budget : ℕ) (m : StoredResponse) (rows : Responses) (r : StoredResponse)
    → victim budget (m ∷ rows) ≡ some r
    → r ≡ oldest_of m rows
unfolding victim oldest
victim-oldest budget m [] r h = absurd (ground (arith, h))
victim-oldest budget m (x ∷ rows) r h = ground (arith, h)

pub only_stays : (budget : ℕ) (m r : StoredResponse) → victim budget (m ∷ []) ≢ some r
unfolding victim oldest
only_stays budget m r h = ground (arith, h)

pub victim-absent : (budget : ℕ) (r : StoredResponse) → victim budget [] ≢ some r
unfolding victim oldest
victim-absent budget r h = ground (arith, h)

pub evict_stops :
    (rounds budget : ℕ) (mine items : Responses)
    → victim budget mine ≡ none
    → evict_rounds (suc rounds) budget mine items ≡ items
unfolding evict_rounds
evict_stops rounds budget mine items e = ground (arith, e)

pub evict_goes :
    (p : StoredResponse → Bool) (rounds budget : ℕ) (items : Responses) (r : StoredResponse)
    → IsKeyed (λ x. x.id) items
    → victim budget (select_where p items) ≡ some r
    → evict_rounds (suc rounds) budget (select_where p items) items
      ≡ evict_rounds rounds budget
          (select_where p (delete_where (has_id r.id) items))
          (delete_where (has_id r.id) items)
unfolding evict_rounds
evict_goes p rounds budget items r k e =
    step
    ∙ ap (λ l. evict_rounds rounds budget l (delete_where (has_id r.id) items))
        (remove_mine p r.id items k)
  where
    step :
        evict_rounds (suc rounds) budget (select_where p items) items
        ≡ evict_rounds rounds budget
            (remove r.id (select_where p items))
            (delete_where (has_id r.id) items)
    step = ground (arith, e)
