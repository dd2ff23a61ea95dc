-- ===== src/Identity/Slots.antt =====
-- The operator's limit on active people under the operations of core/src/octoforge_core/identity.
use octo_forge.Base.{
  ℕ, ◌+◌, String, Bool, true, false, Option, none, some, List, [], ◌∷◌, ◌&&◌, str_eq, if◌then◌else◌,
  update_where, count_where, get_by, IsKeyed, ◌≡◌, refl, ap, arith, Bool-cases, inl, inr, opt_test,
  count-get, ◌==◌,
}
use octo_forge.Identity.Rows.{active, is_waiting, is_active, UserRow, Tables}
use octo_forge.Identity.Admission.{has_slot, try_activate}

-- how many people are active
abbrev pub active_count : Tables → ℕ
active_count s = count_where (λ r. is_active r.status) s.users

-- the person with the id, if they are waiting and there is a slot
abbrev pub is_next : String → Option ℕ → Tables → Bool
is_next user_id max_active s =
    opt_test (λ r. is_waiting r.status && has_slot max_active s.users)
      (get_by (λ r. r.id) user_id s.users)

pub activated_count :
    (user_id : String) (slot : Bool) (rows : List UserRow)
    → count_where
        (λ r. is_active r.status)
        (update_where
          (λ r. str_eq r.id user_id && (is_waiting r.status && slot))
          (λ r. record r { status = active })
          rows)
      ≡ count_where (λ r. is_active r.status) rows
        + count_where (λ r. str_eq r.id user_id && (is_waiting r.status && slot)) rows
activated_count user_id slot [] = omega arith
activated_count user_id slot (r ∷ rows) = ground (arith, activated_count user_id slot rows)

-- A person who is not next stays as they are, and so does everybody else.
update_none :
    (user_id : String) (slot : Bool) (rows : List UserRow)
    → count_where (λ r. str_eq r.id user_id && (is_waiting r.status && slot)) rows ≡ 0
    → update_where
        (λ r. str_eq r.id user_id && (is_waiting r.status && slot))
        (λ r. record r { status = active })
        rows
      ≡ rows
update_none user_id slot [] h = refl
update_none user_id slot (r ∷ rows) h =
    elim (Bool-cases (str_eq r.id user_id && (is_waiting r.status && slot))) [
      | inl e ↦ absurd (ground (arith, e, h))
      | inr e ↦ rw e (ap (λ l. r ∷ l) (update_none user_id slot rows (ground (arith, e, h))))
    ]

-- `try_activate` says exactly whether it has activated a person, in a table whose ids are unique: it
-- does so when that person is waiting and fewer than the limit are active; then one more is active,
-- which is within the limit, and otherwise nothing is changed.
pub try_activate_exact :
    (user_id : String) (max_active : Option ℕ) (s : Tables)
    → IsKeyed (λ r. r.id) s.users
    → ((try_activate user_id max_active s).0 ≡ is_next user_id max_active s)
      × (is_next user_id max_active s ≡ true
          → (active_count (try_activate user_id max_active s).1 ≡ active_count s + 1)
            × (has_slot max_active s.users ≡ true))
      × (is_next user_id max_active s ≡ false → (try_activate user_id max_active s).1 ≡ s)
unfolding try_activate
try_activate_exact user_id max_active s k =
    let count =
      count-get (λ r. r.id) user_id (λ r. (is_waiting r.status && has_slot max_active s.users))
        s.users k in
    (
      go (is_next user_id max_active s) count,
      λ e. (
        ground (arith, count, e, activated_count user_id (has_slot max_active s.users) s.users),
        slot (get_by (λ r. r.id) user_id s.users) e,
      ),
      λ e.
          ap (λ l. record s { users = l })
            (update_none user_id (has_slot max_active s.users) s.users (ground (arith, count, e))),
    )
  where
    go :
        (b : Bool)
        → count_where
            (λ r. str_eq r.id user_id && (is_waiting r.status && has_slot max_active s.users))
            s.users
          ≡ (if b then 1 else 0)
        → (count_where
              (λ r. str_eq r.id user_id && (is_waiting r.status && has_slot max_active s.users))
              s.users
            == 1)
          ≡ b
    go true h = rw h refl
    go false h = rw h refl

    slot :
        (o : Option UserRow)
        → opt_test (λ r. is_waiting r.status && has_slot max_active s.users) o ≡ true
        → has_slot max_active s.users ≡ true
    slot none h = absurd (ground (arith, h))
    slot (some r) h = ground (arith, h)
