-- ===== src/Identity/Owners.antt =====
-- Whom an account belongs to under the operations of core/src/octoforge_core/identity/store.py.
use octo_forge.Base.{
  ℕ, String, Bool, true, false, not, Option, none, some, List, [], ◌∷◌, ◌++◌, ◌&&◌, str_eq, eq_iff,
  any, update_where, All, ◌≡◌, refl, sym, ◌∙◌, subst, arith, Bool-cases, inl, inr, ◌⊎◌, opt_test,
}
use mathlib.Core.Option
use mathlib.Core.Option.{some_inj}
use octo_forge.Identity.Rows.{UserIdentityRow, is_account, identity_clashes}
use octo_forge.Identity.Store.{find}
use octo_forge.Identity.Accounts.{IsAccounts, KeepsAccount, keeps-IsAccounts, append-IsAccounts}
use octo_forge.Identity.Moves.{moved, IsBeside, moved-IsAccounts}
use octo_forge.Identity.Belongs.{
  Belongs, owner_of, owner-Belongs, Belongs-owner, keeps-Belongs, append-Belongs,
}

-- what an operation does to the table of accounts
pub data Change (rows : List UserIdentityRow) (rest : List UserIdentityRow) : Type 0 where
  updated :
      (p : UserIdentityRow → Bool) (f : UserIdentityRow → UserIdentityRow)
      → KeepsAccount f
      → rest ≡ update_where p f rows
      → Change rows rest
  inserted :
      (t : UserIdentityRow)
      → any (identity_clashes t) rows ≡ false
      → rest ≡ rows ++ t ∷ []
      → Change rows rest
  replaced :
      (row : UserIdentityRow) (external_id : String) (now : ℕ)
      → All (IsBeside row external_id) rows
      → opt_test
          (λ taken. not (str_eq taken.user_id row.user_id))
          (find row.surface external_id rows)
        ≡ false
      → rest ≡ update_where (λ r. str_eq r.id row.id) (moved external_id now) rows
      → Change rows rest

pub Change-IsAccounts :
    (rows rest : List UserIdentityRow) → Change rows rest → IsAccounts rows → IsAccounts rest
Change-IsAccounts rows rest (updated p f keeps e) k =
    subst IsAccounts (sym e) (keeps-IsAccounts p f rows keeps k)
Change-IsAccounts rows rest (inserted t free e) k =
    subst IsAccounts (sym e) (append-IsAccounts rows t free k)
Change-IsAccounts rows rest (replaced row external_id now hs mine e) k =
    subst IsAccounts (sym e) (moved-IsAccounts row external_id now rows hs k)

-- An account that is there clashes with a new row for it.
taken_clashes :
    (surface external_id : String) (rows : List UserIdentityRow) (t : UserIdentityRow)
    → is_account surface external_id t ≡ true
    → any (identity_clashes t) rows ≡ false
    → find surface external_id rows ≡ none
taken_clashes surface external_id [] t h free = refl
taken_clashes surface external_id (x ∷ rows) t h free = ground (
  arith,
  eq_iff t.surface surface,
  eq_iff t.external_id external_id,
  eq_iff x.surface t.surface,
  eq_iff x.external_id t.external_id,
  eq_iff x.surface surface,
  eq_iff x.external_id external_id,
  taken_clashes surface external_id rows t,
)

inserted-Belongs :
    (surface external_id user_id : String) (rows : List UserIdentityRow) (t : UserIdentityRow)
    → owner_of surface external_id rows ≡ some user_id
    → any (identity_clashes t) rows ≡ false
    → is_account surface external_id t ≡ false
inserted-Belongs surface external_id user_id rows t h free =
    elim (Bool-cases (is_account surface external_id t)) [
      | inl e ↦ absurd (ground (arith, taken_clashes surface external_id rows t e free, h))
      | inr e ↦ e
    ]

-- A row that is moved to an account belongs to the person who has the account already.
replaced-Belongs :
    (surface external_id user_id : String) (row : UserIdentityRow) (ext : String) (now : ℕ)
    (rows : List UserIdentityRow)
    → ((surface ≡ row.surface) → (external_id ≡ ext) → row.user_id ≡ user_id)
    → All (IsBeside row ext) rows
    → Belongs surface external_id user_id rows
    → Belongs surface external_id user_id
        (update_where (λ r. str_eq r.id row.id) (moved ext now) rows)
replaced-Belongs surface external_id user_id row ext now [] mine hs h = tt
replaced-Belongs surface external_id user_id row ext now (x ∷ rows) mine hs h = (
  elim (Bool-cases (str_eq x.id row.id)) [
    | inr e ↦ rw e h.0
    | inl e ↦ rw e (elim (Bool-cases (str_eq x.surface surface && str_eq ext external_id)) [
      | inr other ↦ inl other
      | inl here ↦ inr (elim hs.0.0 [
        | inl differs ↦ absurd (ground (arith, e, differs))
        | inr (s, u) ↦
            u
            ∙ mine (ground (arith, here, s, eq_iff x.surface surface))
                (ground (arith, here, eq_iff ext external_id))
      ])
    ])
  ],
  replaced-Belongs surface external_id user_id row ext now rows mine hs.1 h.1,
)

Change-Belongs :
    (surface external_id user_id : String) (rows rest : List UserIdentityRow)
    → Change rows rest
    → owner_of surface external_id rows ≡ some user_id
    → Belongs surface external_id user_id rows
    → Belongs surface external_id user_id rest
Change-Belongs surface external_id user_id rows rest (updated p f keeps e) h k =
    subst (Belongs surface external_id user_id) (sym e)
      (keeps-Belongs surface external_id user_id p f rows keeps k)
Change-Belongs surface external_id user_id rows rest (inserted t free e) h k =
    subst (Belongs surface external_id user_id) (sym e) (
      append-Belongs surface external_id user_id rows t
        (inl (inserted-Belongs surface external_id user_id rows t h free)) k)
Change-Belongs surface external_id user_id rows rest (replaced row ext now hs mine e) h k =
    subst (Belongs surface external_id user_id) (sym e)
      (replaced-Belongs surface external_id user_id row ext now rows same hs k)
  where
    go :
        (o : Option UserIdentityRow)
        → Option.map (λ r. r.user_id) o ≡ some user_id
        → opt_test (λ taken. not (str_eq taken.user_id row.user_id)) o ≡ false
        → row.user_id ≡ user_id
    go none a b = absurd (ground (arith, a))
    go (some taken) a b = ground (arith, a, b, eq_iff taken.user_id row.user_id)

    same : (surface ≡ row.surface) → (external_id ≡ ext) → row.user_id ≡ user_id
    same s x = go (find surface external_id rows) h (
        subst
          (λ y.
            opt_test (λ taken. not (str_eq taken.user_id row.user_id)) (find surface y rows)
            ≡ false)
          (sym x)
          (subst
            (λ y.
              opt_test (λ taken. not (str_eq taken.user_id row.user_id)) (find y ext rows) ≡ false)
            (sym s) mine))

-- A change leaves an account with the person it belongs to, or with nobody.
pub Change-owner :
    (surface external_id user_id : String) (rows rest : List UserIdentityRow)
    → Change rows rest
    → IsAccounts rows
    → owner_of surface external_id rows ≡ some user_id
    → (owner_of surface external_id rest ≡ some user_id)
      ⊎ (owner_of surface external_id rest ≡ none)
Change-owner surface external_id user_id rows rest c k h =
    Belongs-owner surface external_id user_id rest (
      Change-Belongs surface external_id user_id rows rest c h
        (owner-Belongs surface external_id user_id rows k h))
