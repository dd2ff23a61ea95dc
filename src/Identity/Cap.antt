-- ===== src/Identity/Cap.antt =====
-- Who is active along the operations of core/src/octoforge_core/identity.
use octo_forge.Base.{
  ℕ, ◌≤◌, String, Bool, true, false, not, Option, none, some, List, [], ◌∷◌, ◌++◌, ◌&&◌, str_eq,
  eq_iff, any, ok, update_where, count_where, first_where, IsKeyed, All, ◌≡◌, ◌≢◌, refl, sym, subst,
  arith, Bool-cases, inl, inr, ◌⊎◌, opt_test, update-IsKeyed, append-IsKeyed, count-append, ltb→lt,
}
use octo_forge.Identity.Rows.{
  User, UserIdentity, UserIdentityRow, nonempty, waiting, active, is_active, UserRow, Tables,
  user_clashes,
}
use octo_forge.Identity.Store.{find, create_user, link_found, link}
use octo_forge.Identity.Manage.{move, reseat, deactivate, profiled, update_profile}
use octo_forge.Identity.Admission.{try_activate}
use octo_forge.Identity.Slots.{active_count, is_next, try_activate_exact}
use octo_forge.Identity.Steps.{
  Step, created, linked, reseated, revoked, mirrored, decided, activated,
}

-- a step that is not the operator's hand, with a limit of at most `n`
abbrev pub IsAutomatic : ℕ → {s t : Tables} → Step s t → Type 0
IsAutomatic n (decided user_id status s t h) = ⊥
IsAutomatic n (activated user_id none s) = ⊥
IsAutomatic n (activated user_id (some m) s) = m ≤ n
IsAutomatic n _ = Unit

-- the tables that such steps lead to, from empty ones
pub data Reached (n : ℕ) : Tables → Type 0 where
  empty : (s : Tables) → s.users ≡ [] → Reached n s
  next : {s t : Tables} → Reached n s → (step : Step s t) → IsAutomatic n step → Reached n t

created_users :
    (email id : String) (now : ℕ) (s : Tables) (user : User) (t : Tables)
    → create_user email id now s ≡ ok (user, t)
    → (r : UserRow) × (r.id ≡ id)
      × (r.status ≡ waiting)
      × (any (user_clashes r) s.users ≡ false)
      × (t.users ≡ s.users ++ r ∷ [])
unfolding create_user
created_users email id now s user t h =
    let new : UserRow = record {
      id = id;
      name = "";
      email = nonempty email;
      status = waiting;
      created_at = now;
    } in
    elim (Bool-cases (any (user_clashes new) s.users)) [
      | inl e ↦ absurd (ground (arith, e, h))
      | inr e ↦ (new, refl, refl, e, ground (arith, e, h))
    ]

free_id :
    (new : UserRow) (rows : List UserRow)
    → any (user_clashes new) rows ≡ false
    → All (λ x. x.id ≢ new.id) rows
free_id new [] h = tt
free_id new (x ∷ rows) h =
    (λ e. ground (arith, (eq_iff x.id new.id).1 e, h), free_id new rows (ground (arith, h)))

-- A table with unique ids and at most `n` active people.
abbrev pub IsCapped : ℕ → Tables → Type 0
IsCapped n s = IsKeyed (λ r. r.id) s.users × (active_count s ≤ n)

same-IsCapped : (n : ℕ) (s t : Tables) → t.users ≡ s.users → IsCapped n s → IsCapped n t
same-IsCapped n s t e h =
    subst (λ l. IsKeyed (λ r. r.id) l × (count_where (λ r. is_active r.status) l ≤ n)) (sym e) h

link_found-users :
    (o : Option UserIdentityRow) (revive : UserIdentityRow → UserIdentityRow → UserIdentityRow)
    (new : UserIdentityRow) (s : Tables) (identity : UserIdentity) (t : Tables)
    → link_found o revive new s ≡ ok (identity, t)
    → t.users ≡ s.users
unfolding link_found
link_found-users none revive new s identity t h = ground (arith, h)
link_found-users (some found) revive new s identity t h = ground (arith, h)

move-users :
    (o : Option UserIdentityRow) (external_id : String) (now : ℕ) (s : Tables)
    (identity : UserIdentity) (t : Tables)
    → move o external_id now s ≡ ok (identity, t)
    → t.users ≡ s.users
unfolding move
move-users none external_id now s identity t h = absurd (ground (arith, h))
move-users (some row) external_id now s identity t h = ground (arith, h)

named_count :
    (p : UserRow → Bool) (name : String) (rows : List UserRow)
    → count_where (λ r. is_active r.status) (update_where p (λ r. record r { name = name }) rows)
      ≡ count_where (λ r. is_active r.status) rows
named_count p name [] = refl
named_count p name (r ∷ rows) = ground (arith, named_count p name rows)

profiled-IsCapped :
    (n : ℕ) (o : Option UserIdentityRow) (name : String) (username : Option String) (now : ℕ)
    (s : Tables)
    → IsCapped n s
    → IsCapped n (profiled o name username now s)
unfolding profiled
profiled-IsCapped n none name username now s h = h
profiled-IsCapped n (some identity) name username now s h = elim (Bool-cases (str_eq name "")) [
  | inl e ↦ rw e h
  | inr e ↦ rw e (
    update-IsKeyed (λ r. r.id) (λ r. str_eq r.id identity.user_id && str_eq r.name "")
        (λ r. record r { name = name }) s.users (λ r. refl) h.0,
    omega (
      arith,
      h.1,
      named_count (λ r. str_eq r.id identity.user_id && str_eq r.name "") name s.users,
    ),
  )
]

try_activate-IsCapped :
    (n m : ℕ) (user_id : String) (s : Tables)
    → m ≤ n
    → IsCapped n s
    → IsCapped n (try_activate user_id (some m) s).1
unfolding try_activate
try_activate-IsCapped n m user_id s le h = (
  update-IsKeyed (λ r. r.id) _ (λ r. record r { status = active }) s.users (λ r. refl) h.0,
  within (Bool-cases (is_next user_id (some m) s)),
)
  where
    within :
        (is_next user_id (some m) s ≡ true) ⊎ (is_next user_id (some m) s ≡ false)
        → active_count (try_activate user_id (some m) s).1 ≤ n
    within (inl e) =
        let grown = (try_activate_exact user_id (some m) s h.0).1 e in
        omega (arith, le, grown.0, ltb→lt _ _ grown.1)
    within (inr e) =
        subst (λ x. active_count x ≤ n) (sym ((try_activate_exact user_id (some m) s h.0).2 e)) h.1

Step-IsCapped :
    (n : ℕ) {s t : Tables} (step : Step s t) → IsAutomatic n step → IsCapped n s → IsCapped n t
unfolding link reseat deactivate update_profile
Step-IsCapped n (created email id now s user t h) a k =
    let (r, same, waits, free, e) = created_users email id now s user t h in
    subst (λ l. IsKeyed (λ x. x.id) l × (count_where (λ x. is_active x.status) l ≤ n)) (sym e)
      (
        append-IsKeyed (λ x. x.id) s.users r (free_id r s.users free) k.0,
        ground (arith, waits, count-append (λ x. is_active x.status) s.users (r ∷ []), k.1),
      )
Step-IsCapped n (linked differ user_id surface external_id details id now seen s identity t h) a k =
    same-IsCapped n s t
      (link_found-users (find surface external_id seen.identities) _ _ s identity t h) k
Step-IsCapped n (reseated surface user_id external_id now s identity t h) a k =
    same-IsCapped n s t
      (elim (Bool-cases (
        opt_test (λ taken. not (str_eq taken.user_id user_id))
          (find surface external_id s.identities))) [
            | inl e ↦ absurd (ground (arith, e, h))
            | inr e ↦
                move-users
                  (first_where (λ r. str_eq r.surface surface && str_eq r.user_id user_id)
                    s.identities)
                  external_id now s identity t (ground (arith, e, h))
          ])
      k
Step-IsCapped n (revoked surface external_id now s) a k = k
Step-IsCapped n (mirrored surface external_id name username now s) a k =
    profiled-IsCapped n (find surface external_id s.identities) name username now s k
Step-IsCapped n (decided user_id status s t h) a k = elim a [ ]
Step-IsCapped n (activated user_id none s) a k = elim a [ ]
Step-IsCapped n (activated user_id (some m) s) a k = try_activate-IsCapped n m user_id s a k

-- Never more people are active than the operator's limit: whatever operations run from a table without
-- people, in any order, as long as no status is set by hand and the limit that `try_activate` is given
-- is never above `n`, at most `n` people are active, and no two share an id.
pub Reached-IsCapped : {n : ℕ} {s : Tables} → Reached n s → IsCapped n s
Reached-IsCapped {n} (empty s e) =
    subst (λ l. IsKeyed (λ r. r.id) l × (count_where (λ r. is_active r.status) l ≤ n)) (sym e)
      (tt, omega arith)
Reached-IsCapped {n} (next before step a) = Step-IsCapped n step a (Reached-IsCapped before)
