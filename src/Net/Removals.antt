-- ===== src/Net/Removals.antt =====
-- Items taken out of the dictionary of core/src/octoforge_core/net/response_memory.py.
use octo_forge.Base.{
  ℕ, ◌+◌, ◌≤◌, String, Bool, true, false, not, [], ◌∷◌, str_eq, eq_iff, ltb, if◌then◌else◌, length,
  select_where, delete_where, IsKeyed, All, All-weaken, ◌≡◌, ◌≢◌, refl, sym, ap, ◌∙◌, arith,
  Bool-cases, inl, inr, any,
}
use octo_forge.Net.Responses.{StoredResponse, Responses, oldest_of, remove}

-- The item that is deleted was not touched later than any other.
pub oldest_of-least :
    (m : StoredResponse) (rows : Responses) (b : ℕ)
    → b ≡ (oldest_of m rows).last_access
    → All (λ r. b ≤ r.last_access) (m ∷ rows)
unfolding oldest_of
oldest_of-least m [] b e = (omega (arith, e), tt)
oldest_of-least m (x ∷ rows) b e = elim (Bool-cases (ltb x.last_access m.last_access)) [
  | inl t ↦
      let ih = oldest_of-least x rows b (ground (arith, t, e)) in (ground (arith, t, ih.0), ih)
  | inr t ↦
      let ih = oldest_of-least m rows b (ground (arith, t, e)) in
      (ih.0, (ground (arith, t, ih.0), ih.1))
]

-- The item that is deleted is one of those looked at.
pub oldest_of-All {ℓ} :
    (P : StoredResponse → Type ℓ) (m : StoredResponse) (rows : Responses)
    → All P (m ∷ rows)
    → P (oldest_of m rows)
unfolding oldest_of
oldest_of-All P m [] h = h.0
oldest_of-All P m (x ∷ rows) h =
    oldest_of-All P (if ltb x.last_access m.last_access then x else m) rows (
      elim (ltb x.last_access m.last_access) as (λ b. P (if b then x else m)) [
        | true ↦ h.1.0
        | false ↦ h.0
      ],
      h.1.1,
    )

abbrev pub has_id : String → StoredResponse → Bool
has_id id r = str_eq r.id id

pub oldest_of-has :
    (m : StoredResponse) (rows : Responses) (id : String)
    → id ≡ (oldest_of m rows).id
    → any (has_id id) (m ∷ rows) ≡ true
unfolding oldest_of
oldest_of-has m [] id e = ground (arith, e, eq_iff m.id id)
oldest_of-has m (x ∷ rows) id e = elim (Bool-cases (ltb x.last_access m.last_access)) [
  | inl t ↦ ground (arith, oldest_of-has x rows id (ground (arith, t, e)))
  | inr t ↦ ground (arith, oldest_of-has m rows id (ground (arith, t, e)))
]

length-remove :
    (id : String) (rows : Responses)
    → any (has_id id) rows ≡ true
    → length (remove id rows) + 1 ≡ length rows
unfolding remove
length-remove id [] h = absurd (ground (arith, h))
length-remove id (r ∷ rows) h = ground (arith, length-remove id rows)

delete-none :
    (id : String) (rows : Responses)
    → All (λ r. str_eq r.id id ≡ false) rows
    → delete_where (has_id id) rows ≡ rows
delete-none id [] h = refl
delete-none id (r ∷ rows) h = ground (arith, h.0, delete-none id rows h.1)

apart_from :
    (id : String) (r : StoredResponse) (rows : Responses)
    → str_eq r.id id ≡ true
    → All (λ s. s.id ≢ r.id) rows
    → All (λ s. str_eq s.id id ≡ false) rows
apart_from id r rows e h =
    All-weaken
      (λ s ne. elim (Bool-cases (str_eq s.id id)) [
        | inl q ↦ absurd (ne ((eq_iff s.id id).0 q ∙ sym ((eq_iff r.id id).0 e)))
        | inr q ↦ q
      ])
      rows h

remove-delete :
    (id : String) (rows : Responses)
    → IsKeyed (λ r. r.id) rows
    → remove id rows ≡ delete_where (has_id id) rows
unfolding remove
remove-delete id [] k = refl
remove-delete id (r ∷ rows) k = elim (Bool-cases (str_eq r.id id)) [
  | inl e ↦ ground (arith, e, delete-none id rows (apart_from id r rows e k.0))
  | inr e ↦ ground (arith, e, remove-delete id rows k.1)
]

pub select-delete :
    (p q : StoredResponse → Bool) (rows : Responses)
    → select_where p (delete_where q rows) ≡ delete_where q (select_where p rows)
select-delete p q [] = refl
select-delete p q (r ∷ rows) = ground (arith, select-delete p q rows)

pub select-All :
    (P : StoredResponse → Type 0) (p : StoredResponse → Bool) (rows : Responses)
    → All P rows
    → All P (select_where p rows)
select-All P p [] h = tt
select-All P p (r ∷ rows) h =
    elim (p r) as (λ b. All P (if b then r ∷ select_where p rows else select_where p rows)) [
      | true ↦ (h.0, select-All P p rows h.1)
      | false ↦ select-All P p rows h.1
    ]

pub delete-All :
    (P : StoredResponse → Type 0) (p : StoredResponse → Bool) (rows : Responses)
    → All P rows
    → All P (delete_where p rows)
delete-All P p [] h = tt
delete-All P p (r ∷ rows) h =
    elim (p r) as (λ b. All P (if b then delete_where p rows else r ∷ delete_where p rows)) [
      | true ↦ delete-All P p rows h.1
      | false ↦ (h.0, delete-All P p rows h.1)
    ]

select-IsKeyed :
    (p : StoredResponse → Bool) (rows : Responses)
    → IsKeyed (λ r. r.id) rows
    → IsKeyed (λ r. r.id) (select_where p rows)
select-IsKeyed p [] k = tt
select-IsKeyed p (r ∷ rows) k =
    elim (p r)
      as (λ b. IsKeyed (λ x. x.id) (if b then r ∷ select_where p rows else select_where p rows)) [
        | true ↦ (select-All (λ s. s.id ≢ r.id) p rows k.0, select-IsKeyed p rows k.1)
        | false ↦ select-IsKeyed p rows k.1
      ]

-- `mine` stays the owner's part of the dictionary.
pub remove_mine :
    (p : StoredResponse → Bool) (id : String) (items : Responses)
    → IsKeyed (λ r. r.id) items
    → remove id (select_where p items) ≡ select_where p (delete_where (has_id id) items)
remove_mine p id items k =
    remove-delete id (select_where p items) (select-IsKeyed p items k)
    ∙ sym (select-delete p (has_id id) items)

pub length-remove_mine :
    (p : StoredResponse → Bool) (id : String) (items : Responses)
    → IsKeyed (λ r. r.id) items
    → any (has_id id) (select_where p items) ≡ true
    → length (select_where p (delete_where (has_id id) items)) + 1 ≡ length (select_where p items)
length-remove_mine p id items k h =
    ap (λ l. length l + 1) (sym (remove_mine p id items k))
    ∙ length-remove id (select_where p items) h

any-none :
    (id : String) (p : StoredResponse → Bool) (rows : Responses)
    → All (λ r. str_eq r.id id ≡ false) rows
    → any (has_id id) (select_where p rows) ≡ false
any-none id p [] h = refl
any-none id p (r ∷ rows) h = ground (arith, h.0, any-none id p rows h.1)

-- An item of one part of the dictionary is in no other.
pub others_apart :
    (id : String) (p : StoredResponse → Bool) (rows : Responses)
    → IsKeyed (λ r. r.id) rows
    → any (has_id id) (select_where p rows) ≡ true
    → delete_where (has_id id) (select_where (λ r. not (p r)) rows)
      ≡ select_where (λ r. not (p r)) rows
others_apart id p [] k h = refl
others_apart id p (r ∷ rows) k h = elim (Bool-cases (str_eq r.id id)) [
  | inl e ↦
      let behind = apart_from id r rows e k.0 in
      elim (Bool-cases (p r)) [
        | inl q ↦ ground (
          arith,
          q,
          delete-none id (select_where (λ x. not (p x)) rows)
              (select-All (λ x. str_eq x.id id ≡ false) (λ x. not (p x)) rows behind),
        )
        | inr q ↦ absurd (ground (arith, q, h, any-none id p rows behind))
      ]
  | inr e ↦ ground (arith, e, h, others_apart id p rows k.1)
]
