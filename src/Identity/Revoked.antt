-- ===== src/Identity/Revoked.antt =====
-- What a message of a revoked account leaves behind, under `resolve_or_create` of
-- core/src/octoforge_core/identity/store.py.
use octo_forge.Base.{
  ℕ, ◌+◌, String, none, some, [], ◌∷◌, ◌++◌, ◌&&◌, any, ok, err, first_where, ◌≡◌, refl, sym, ap,
  ◌∙◌, arith, Bool-cases, inl, inr, length, length-append,
}
use mathlib.Core.Option
use octo_forge.Identity.Rows.{
  identity_taken, waiting, nonempty, UserRow, UserIdentityRow, User, Tables, is_account,
  user_clashes,
}
use octo_forge.Identity.Store.{
  find, resolve, create_user, link_found, link, no_difference, contacted, first_contact,
  resolve_or_create,
}
use octo_forge.Identity.Contacts.{IsNew, found_other}

created_person :
    (email id : String) (now : ℕ) (s : Tables) (user : User) (t : Tables)
    → create_user email id now s ≡ ok (user, t)
    → (t.identities ≡ s.identities) × (length t.users ≡ length s.users + 1)
unfolding create_user
created_person email id now s user t h =
    let new : UserRow = record {
      id = id;
      name = "";
      email = nonempty email;
      status = waiting;
      created_at = now;
    } in
    elim (Bool-cases (any (user_clashes new) s.users)) [
      | inl e ↦ absurd (ground (arith, e, h))
      | inr e ↦ (
        ground (arith, e, h),
        let grown : s.users ++ new ∷ [] ≡ t.users = ground (arith, e, h) in
            ap length (sym grown) ∙ length-append s.users (new ∷ []),
      )
    ]

resolve-same :
    (surface external_id : String) (s t : Tables)
    → t.identities ≡ s.identities
    → resolve surface external_id t ≡ resolve surface external_id s
unfolding resolve
resolve-same surface external_id s t e =
    ap
      (λ l.
        Option.map (λ r. r.user_id)
          (first_where (λ r. is_account surface external_id r && r.active) l))
      e

link_refused :
    (surface external_id user_id id : String) (now : ℕ) (seen s : Tables) (row : UserIdentityRow)
    → IsNew user_id seen.identities
    → find surface external_id seen.identities ≡ some row
    → link no_difference user_id surface external_id none id now seen s ≡ err identity_taken
unfolding link link_found
link_refused surface external_id user_id id now seen s row fresh e =
    rw e (rw (found_other surface external_id user_id seen.identities row fresh e) refl)

-- A revoked account is not let in, but each of its messages leaves one more person in the table, to
-- whom no account belongs: where nobody else writes, the contact raises IdentityTakenError and the
-- accounts stay as they are.
pub revoked_leaves_person :
    (surface external_id user_id id : String) (now : ℕ) (s : Tables) (row : UserIdentityRow)
    (user : User) (t : Tables)
    → find surface external_id s.identities ≡ some row
    → resolve surface external_id s ≡ none
    → IsNew user_id s.identities
    → create_user "" user_id now s ≡ ok (user, t)
    → (resolve_or_create surface external_id user_id id now (λ x. x) s s s
        ≡ (err identity_taken, t))
      × (t.identities ≡ s.identities)
      × (length t.users ≡ length s.users + 1)
unfolding resolve_or_create first_contact contacted
revoked_leaves_person surface external_id user_id id now s row user t found shut fresh made =
    let step = created_person "" user_id now s user t made in
    let again : resolve surface external_id t ≡ none =
      resolve-same surface external_id s t step.0 ∙ shut in
    (
      rw (shut) (
          rw (made) (
            rw (link_refused surface external_id user_id id now s t row fresh found)
              (rw (again) refl))),
      step.0,
      step.1,
    )
