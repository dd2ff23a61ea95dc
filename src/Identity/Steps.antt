-- ===== src/Identity/Steps.antt =====
-- The operations of core/src/octoforge_core/identity/store.py as the steps of its tables.
use octo_forge.Base.{
  ℕ, String, Bool, false, not, Option, none, some, List, [], ◌∷◌, ◌&&◌, str_eq, eq_iff, any, ok,
  first_where, update_where, ◌≡◌, refl, sym, ap, subst, arith, Bool-cases, inl, inr, ◌⊎◌, opt_test,
}
use octo_forge.Json.{Members}
use octo_forge.Identity.Rows.{
  UserStatus, UserIdentityRow, User, UserIdentity, Tables, is_account, identity_clashes,
}
use octo_forge.Identity.Store.{find, create_user, revived, new_identity, link_found, link}
use octo_forge.Identity.Manage.{is_renamed, move, reseat, deactivate, profiled, update_profile}
use octo_forge.Identity.Admission.{set_status, try_activate}
use octo_forge.Identity.Accounts.{IsAccounts, first-passes}
use octo_forge.Identity.Moves.{beside}
use octo_forge.Identity.Belongs.{owner_of}
use octo_forge.Identity.Owners.{
  Change, updated, inserted, replaced, Change-IsAccounts, Change-owner,
}

-- the operations that write, each with any arguments. `link`, which runs in a transaction of its caller,
-- looks the account up in any earlier table; every other operation is one step, from its reads to its
-- writes.
pub data Step : Tables → Tables → Type 0 where
  created :
      (email id : String) (now : ℕ) (s : Tables) (user : User) (t : Tables)
      → create_user email id now s ≡ ok (user, t)
      → Step s t
  linked :
      (differ : Members → Members → Bool) (user_id surface external_id : String)
      (details : Option Members) (id : String) (now : ℕ) (seen s : Tables) (identity : UserIdentity)
      (t : Tables)
      → link differ user_id surface external_id details id now seen s ≡ ok (identity, t)
      → Step s t
  reseated :
      (surface user_id external_id : String) (now : ℕ) (s : Tables) (identity : UserIdentity)
      (t : Tables)
      → reseat surface user_id external_id now s ≡ ok (identity, t)
      → Step s t
  revoked :
      (surface external_id : String) (now : ℕ) (s : Tables)
      → Step s (deactivate surface external_id now s)
  mirrored :
      (surface external_id name : String) (username : Option String) (now : ℕ) (s : Tables)
      → Step s (update_profile surface external_id name username now s)
  decided :
      (user_id : String) (status : UserStatus) (s t : Tables)
      → set_status user_id status s ≡ ok t
      → Step s t
  activated :
      (user_id : String) (max_active : Option ℕ) (s : Tables)
      → Step s (try_activate user_id max_active s).1

untouched : (rows : List UserIdentityRow) → Change rows rows
untouched rows = updated (λ r. false) (λ r. r) (λ r. (refl, refl, refl, refl)) (nothing rows)
  where
    nothing : (rows : List UserIdentityRow) → rows ≡ update_where (λ r. false) (λ r. r) rows
    nothing [] = refl
    nothing (r ∷ rows) = ap (λ l. r ∷ l) (nothing rows)

link_found-Change :
    (o : Option UserIdentityRow) (differ : Members → Members → Bool) (details : Option Members)
    (now : ℕ) (new : UserIdentityRow) (s : Tables) (identity : UserIdentity) (t : Tables)
    → link_found o (revived differ details now) new s ≡ ok (identity, t)
    → Change s.identities t.identities
unfolding link_found
link_found-Change none differ details now new s identity t h =
    elim (Bool-cases (any (identity_clashes new) s.identities)) [
      | inl taken ↦ absurd (ground (arith, taken, h))
      | inr free ↦ inserted new free (ground (arith, free, h))
    ]
link_found-Change (some found) differ details now new s identity t h =
    elim (Bool-cases (str_eq found.user_id new.user_id)) [
      | inr other ↦ absurd (ground (arith, other, h))
      | inl mine ↦
          updated (λ r. str_eq r.id found.id) (revived differ details now found)
            (λ r. (ground arith, ground arith, ground arith, ground arith))
            (ground (arith, mine, h))
    ]

move-Change :
    (surface user_id external_id : String) (now : ℕ) (s : Tables) (o : Option UserIdentityRow)
    (identity : UserIdentity) (t : Tables)
    → IsAccounts s.identities
    → opt_test (λ taken. not (str_eq taken.user_id user_id)) (find surface external_id s.identities)
      ≡ false
    → first_where (λ r. str_eq r.surface surface && str_eq r.user_id user_id) s.identities ≡ o
    → move o external_id now s ≡ ok (identity, t)
    → Change s.identities t.identities
unfolding move
move-Change surface user_id external_id now s none identity t k guard e h =
    absurd (ground (arith, h))
move-Change surface user_id external_id now s (some row) identity t k guard e h =
    let passes =
      first-passes (λ r. str_eq r.surface surface && str_eq r.user_id user_id) s.identities row e in
    let on_surface : row.surface ≡ surface = ground (arith, passes, eq_iff row.surface surface) in
    let mine : row.user_id ≡ user_id = ground (arith, passes, eq_iff row.user_id user_id) in
    elim (Bool-cases
      (any (λ r. is_account row.surface external_id r && not (str_eq r.id row.id)) s.identities)) [
        | inl taken ↦ absurd (ground (arith, taken, h))
        | inr free ↦
            replaced row external_id now
              (beside (λ r. str_eq r.surface surface && str_eq r.user_id user_id) s.identities row
                external_id k e free)
              (subst
                (λ y.
                  opt_test (λ taken. not (str_eq taken.user_id row.user_id))
                    (find y external_id s.identities)
                  ≡ false)
                (sym on_surface)
                (subst
                  (λ y.
                    opt_test (λ taken. not (str_eq taken.user_id y))
                      (find surface external_id s.identities)
                    ≡ false)
                  (sym mine) guard))
              (ground (arith, free, h))
      ]

profiled-Change :
    (o : Option UserIdentityRow) (name : String) (username : Option String) (now : ℕ) (s : Tables)
    → Change s.identities (profiled o name username now s).identities
unfolding profiled
profiled-Change none name username now s = untouched s.identities
profiled-Change (some identity) name username now s =
    elim (Bool-cases (is_renamed name username identity)) [
      | inl e ↦ rw e (
          updated (λ r. str_eq r.id identity.id)
            (λ r. record r { name = name; username = username; updated_at = now })
            (λ r. (refl, refl, refl, refl)) refl)
      | inr e ↦ rw e (untouched s.identities)
    ]

Step-Change : {s t : Tables} → Step s t → IsAccounts s.identities → Change s.identities t.identities
unfolding create_user link reseat deactivate update_profile set_status try_activate
Step-Change (created email id now s user t h) k =
    subst (λ l. Change s.identities l) (ground (arith, h)) (untouched s.identities)
Step-Change (linked differ user_id surface external_id details id now seen s identity t h) k =
    link_found-Change (find surface external_id seen.identities) differ details now
      (new_identity id user_id surface external_id details now) s identity t h
Step-Change (reseated surface user_id external_id now s identity t h) k =
    elim (Bool-cases (
      opt_test (λ taken. not (str_eq taken.user_id user_id))
        (find surface external_id s.identities))) [
          | inl e ↦ absurd (ground (arith, e, h))
          | inr e ↦
              move-Change surface user_id external_id now s
                (first_where (λ r. str_eq r.surface surface && str_eq r.user_id user_id)
                  s.identities)
                identity t k e refl (ground (arith, e, h))
        ]
Step-Change (revoked surface external_id now s) k =
    updated (is_account surface external_id) (λ r. record r { active = false; updated_at = now })
      (λ r. (refl, refl, refl, refl)) refl
Step-Change (mirrored surface external_id name username now s) k =
    profiled-Change (find surface external_id s.identities) name username now s
Step-Change (decided user_id status s t h) k =
    subst (λ l. Change s.identities l) (ground (arith, h)) (untouched s.identities)
Step-Change (activated user_id max_active s) k = untouched s.identities

-- The unique keys of the table stay, `link` acting on an earlier read included.
pub Step-IsAccounts : {s t : Tables} → Step s t → IsAccounts s.identities → IsAccounts t.identities
Step-IsAccounts {s} {t} step k = Change-IsAccounts s.identities t.identities (Step-Change step k) k

-- No operation hands an account from one person to another: in a table with unique accounts, an account
-- that belongs to somebody belongs to the same person afterwards, or to nobody.
pub owner_kept :
    {s t : Tables} (surface external_id user_id : String)
    → Step s t
    → IsAccounts s.identities
    → owner_of surface external_id s.identities ≡ some user_id
    → (owner_of surface external_id t.identities ≡ some user_id)
      ⊎ (owner_of surface external_id t.identities ≡ none)
owner_kept {s} {t} surface external_id user_id step k h =
    Change-owner surface external_id user_id s.identities t.identities (Step-Change step k) k h
