-- ===== src/Identity/Belongs.antt =====
-- To whom core/src/octoforge_core/identity says that an account belongs.
use octo_forge.Base.{
  String, Bool, true, false, Option, none, some, List, [], ◌∷◌, ◌++◌, eq_iff, if◌then◌else◌,
  update_where, All, All-weaken, ◌≡◌, refl, ap, ◌∙◌, arith, Bool-cases, inl, inr, ◌⊎◌,
}
use mathlib.Core.Option
use mathlib.Core.Option.{some_inj}
use octo_forge.Identity.Rows.{UserIdentityRow, is_account, identity_clashes}
use octo_forge.Identity.Store.{find}
use octo_forge.Identity.Accounts.{IsAccounts, KeepsAccount, first-passes, only_row}

-- Each row of the account is of this person.
abbrev pub Belongs : String → String → String → List UserIdentityRow → Type 0
Belongs surface external_id user_id rows =
    All (λ r. (is_account surface external_id r ≡ false) ⊎ (r.user_id ≡ user_id)) rows

-- the person an account belongs to, revoked or not
abbrev pub owner_of : String → String → List UserIdentityRow → Option String
owner_of surface external_id rows = Option.map (λ r. r.user_id) (find surface external_id rows)

pub owner-Belongs :
    (surface external_id user_id : String) (rows : List UserIdentityRow)
    → IsAccounts rows
    → owner_of surface external_id rows ≡ some user_id
    → Belongs surface external_id user_id rows
owner-Belongs surface external_id user_id rows k h = go (find surface external_id rows) refl h
  where
    go :
        (o : Option UserIdentityRow)
        → find surface external_id rows ≡ o
        → Option.map (λ r. r.user_id) o ≡ some user_id
        → Belongs surface external_id user_id rows
    go none e h' = absurd (ground (arith, h'))
    go (some row) e h' =
        let here : is_account surface external_id row ≡ true =
          first-passes (is_account surface external_id) rows row e in
        let mine : row.user_id ≡ user_id = some_inj.0 h' in
        All-weaken (one row here mine) rows (only_row (is_account surface external_id) rows row k e)
      where
        one :
            (row : UserIdentityRow)
            → is_account surface external_id row ≡ true
            → row.user_id ≡ user_id
            → (x : UserIdentityRow) → (x ≡ row) ⊎ (identity_clashes row x ≡ false)
            → (is_account surface external_id x ≡ false) ⊎ (x.user_id ≡ user_id)
        one row here mine x (inl same) = inr (ap (λ r. r.user_id) same ∙ mine)
        one row here mine x (inr apart) = inl (
            ground (
              arith,
              here,
              apart,
              eq_iff row.surface surface,
              eq_iff row.external_id external_id,
              eq_iff x.surface row.surface,
              eq_iff x.external_id row.external_id,
              eq_iff x.surface surface,
              eq_iff x.external_id external_id,
            ))

pub Belongs-owner :
    (surface external_id user_id : String) (rows : List UserIdentityRow)
    → Belongs surface external_id user_id rows
    → (owner_of surface external_id rows ≡ some user_id)
      ⊎ (owner_of surface external_id rows ≡ none)
Belongs-owner surface external_id user_id [] h = inr refl
Belongs-owner surface external_id user_id (x ∷ rows) h =
    elim (Bool-cases (is_account surface external_id x)) [
      | inl e ↦ inl (ground (arith, e, h.0))
      | inr e ↦ rw e (Belongs-owner surface external_id user_id rows h.1)
    ]

pub keeps-Belongs :
    (surface external_id user_id : String) (p : UserIdentityRow → Bool)
    (f : UserIdentityRow → UserIdentityRow) (rows : List UserIdentityRow)
    → KeepsAccount f
    → Belongs surface external_id user_id rows
    → Belongs surface external_id user_id (update_where p f rows)
keeps-Belongs surface external_id user_id p f [] keeps h = tt
keeps-Belongs surface external_id user_id p f (x ∷ rows) keeps h = (
  elim (p x)
      as (λ b.
        (is_account surface external_id (if b then f x else x) ≡ false)
        ⊎ ((if b then f x else x).user_id ≡ user_id)) [
          | true ↦ elim h.0 [
            | inl e ↦ inl (ground (arith, e, keeps x))
            | inr e ↦ inr (ground (arith, e, keeps x))
          ]
          | false ↦ h.0
        ],
  keeps-Belongs surface external_id user_id p f rows keeps h.1,
)

pub append-Belongs :
    (surface external_id user_id : String) (rows : List UserIdentityRow) (t : UserIdentityRow)
    → (is_account surface external_id t ≡ false) ⊎ (t.user_id ≡ user_id)
    → Belongs surface external_id user_id rows
    → Belongs surface external_id user_id (rows ++ t ∷ [])
append-Belongs surface external_id user_id [] t h k = (h, tt)
append-Belongs surface external_id user_id (x ∷ rows) t h k =
    (k.0, append-Belongs surface external_id user_id rows t h k.1)
