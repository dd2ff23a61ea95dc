-- ===== src/Identity/Contacts.antt =====
-- First messages of an account that arrive together, under `resolve_or_create` of
-- core/src/octoforge_core/identity/store.py.
use octo_forge.Base.{
  ℕ, String, true, false, Option, none, some, List, [], ◌∷◌, ◌++◌, ◌&&◌, str_eq, eq_iff, any,
  Result, ok, err, first_where, All, ◌≡◌, refl, ◌∙◌, arith, Bool-cases, inl, inr,
}
use mathlib.Core.Option
use octo_forge.Identity.Rows.{
  IdentityError, identity_taken, UserIdentityRow, User, Tables, is_account, identity_clashes,
}
use octo_forge.Identity.Store.{
  find, resolve, create_user, revived, new_identity, link_found, link, owner_or, linked_or,
  no_difference, contacted, first_contact, resolve_or_create,
}

-- No account in the table is of this person.
abbrev pub IsNew : String → List UserIdentityRow → Type 0
IsNew user_id rows = All (λ r. str_eq r.user_id user_id ≡ false) rows

pub found_other :
    (surface external_id user_id : String) (rows : List UserIdentityRow) (found : UserIdentityRow)
    → IsNew user_id rows
    → find surface external_id rows ≡ some found
    → str_eq found.user_id user_id ≡ false
found_other surface external_id user_id [] found h e = absurd (ground (arith, e))
found_other surface external_id user_id (x ∷ rows) found h e =
    elim (Bool-cases (is_account surface external_id x)) [
      | inl here ↦ ground (arith, here, e, h.0)
      | inr there ↦
          found_other surface external_id user_id rows found h.1 (ground (arith, there, e))
    ]

-- An account that somebody uses is taken.
active_clashes :
    (surface external_id owner : String) (rows : List UserIdentityRow) (new : UserIdentityRow)
    → new.surface ≡ surface
    → new.external_id ≡ external_id
    → Option.map
        (λ r. r.user_id)
        (first_where (λ r. is_account surface external_id r && r.active) rows)
      ≡ some owner
    → any (identity_clashes new) rows ≡ true
active_clashes surface external_id owner [] new s x h = absurd (ground (arith, h))
active_clashes surface external_id owner (r ∷ rows) new s x h =
    elim (Bool-cases (is_account surface external_id r)) [
      | inl here ↦ ground (arith, here, s, x)
      | inr there ↦
          ground (
            arith,
            active_clashes surface external_id owner rows new s x (ground (arith, there, h)),
          )
    ]

link_found-taken :
    (surface external_id user_id owner id : String) (now : ℕ) (seen s : Tables)
    → IsNew user_id seen.identities
    → resolve surface external_id s ≡ some owner
    → link no_difference user_id surface external_id none id now seen s ≡ err identity_taken
unfolding link link_found resolve
link_found-taken surface external_id user_id owner id now seen s fresh h =
    go (find surface external_id seen.identities) refl
  where
    go :
        (o : Option UserIdentityRow)
        → find surface external_id seen.identities ≡ o
        → link_found o
            (revived no_difference none now)
            (new_identity id user_id surface external_id none now)
            s
          ≡ err identity_taken
    go none e =
        rw
          (active_clashes surface external_id owner s.identities
            (new_identity id user_id surface external_id none now) refl refl h)
          refl
    go (some found) e =
        rw (found_other surface external_id user_id seen.identities found fresh e) refl

-- Two first messages of one account that arrive together end on the same person: a contact that has
-- read that nobody has the account, and has created a person whose id no account that it sees has,
-- answers with the person who uses the account by the time it tries to link it, and changes no account.
pub same_person :
    (surface external_id user_id id owner : String) (now : ℕ) (others : Tables → Tables)
    (known seen s : Tables) (user : User) (t : Tables)
    → resolve surface external_id known ≡ none
    → create_user "" user_id now s ≡ ok (user, t)
    → IsNew user_id seen.identities
    → resolve surface external_id (others t) ≡ some owner
    → resolve_or_create surface external_id user_id id now others known seen s
      ≡ (ok owner, others t)
unfolding resolve_or_create first_contact contacted
same_person surface external_id user_id id owner now others known seen s user t unknown made fresh
      used =
    rw (unknown) (
      rw (made) (
        rw (link_found-taken surface external_id user_id owner id now seen (others t) fresh used)
          (rw (used) refl)))

-- A new row of an account that is nobody's is the one that the account resolves to.
resolve_appended :
    (surface external_id : String) (rows : List UserIdentityRow) (new : UserIdentityRow)
    → new.surface ≡ surface
    → new.external_id ≡ external_id
    → new.active ≡ true
    → any (identity_clashes new) rows ≡ false
    → Option.map
        (λ r. r.user_id)
        (first_where (λ r. is_account surface external_id r && r.active) (rows ++ new ∷ []))
      ≡ some new.user_id
resolve_appended surface external_id [] new s x on free =
    ground (arith, eq_iff new.surface surface, eq_iff new.external_id external_id)
resolve_appended surface external_id (r ∷ rows) new s x on free =
    elim (Bool-cases (is_account surface external_id r)) [
      | inl here ↦ absurd (ground (arith, here, s, x, free))
      | inr there ↦ ground (
        arith,
        there,
        free,
        resolve_appended surface external_id rows new s x on (ground (arith, free)),
      )
    ]

owner_found : (o : Option String) (owner : String) → owner_or o ≡ ok owner → o ≡ some owner
owner_found none owner h = absurd (ground (arith, h))
owner_found (some u) owner h = ground (arith, h)

-- A contact that has an answer leaves the account with the person it names, however the tables change
-- while it runs: the next lookup of the account finds them. The new id is one that no account has.
pub contact_resolves :
    (surface external_id user_id id owner : String) (now : ℕ) (others : Tables → Tables)
    (seen s : Tables)
    → IsNew user_id seen.identities
    → (resolve_or_create surface external_id user_id id now others s seen s).0 ≡ ok owner
    → resolve surface external_id
        (resolve_or_create surface external_id user_id id now others s seen s).1
      ≡ some owner
unfolding resolve_or_create first_contact contacted link link_found resolve
contact_resolves surface external_id user_id id owner now others seen s fresh =
    first (resolve surface external_id s) refl
  where
    linked :
        (t : Tables) (o : Option UserIdentityRow)
        → find surface external_id seen.identities ≡ o
        → (linked_or user_id surface external_id
            (link_found o
              (revived no_difference none now)
              (new_identity id user_id surface external_id none now)
              t)
            t).0
          ≡ ok owner
        → resolve surface external_id
            (linked_or user_id surface external_id
              (link_found o
                (revived no_difference none now)
                (new_identity id user_id surface external_id none now)
                t)
              t).1
          ≡ some owner
    linked t none e h =
        elim (Bool-cases (
          any (identity_clashes (new_identity id user_id surface external_id none now))
            t.identities)) [
              | inl taken ↦
                  rw taken
                    (owner_found (resolve surface external_id t) owner (ground (arith, taken, h)))
              | inr free ↦ rw free (
                  resolve_appended surface external_id t.identities
                    (new_identity id user_id surface external_id none now) refl refl refl free
                  ∙ ground (arith, free, h))
            ]
    linked t (some found) e h =
        let other = found_other surface external_id user_id seen.identities found fresh e in
        rw other (owner_found (resolve surface external_id t) owner (ground (arith, other, h)))

    made :
        (r : Result IdentityError (User × Tables))
        → (contacted surface external_id user_id id now others seen s r).0 ≡ ok owner
        → resolve surface external_id
            (contacted surface external_id user_id id now others seen s r).1
          ≡ some owner
    made (err e) h = absurd (ground (arith, h))
    made (ok (user, t)) h = linked (others t) (find surface external_id seen.identities) refl h

    first :
        (o : Option String)
        → resolve surface external_id s ≡ o
        → (first_contact o surface external_id user_id id now others seen s).0 ≡ ok owner
        → resolve surface external_id
            (first_contact o surface external_id user_id id now others seen s).1
          ≡ some owner
    first (some found) e h = rw e (ground (arith, h))
    first none e h = made (create_user "" user_id now s) h
