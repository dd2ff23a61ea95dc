-- ===== src/Identity/Moves.antt =====
-- `reseat` of core/src/octoforge_core/identity/store.py: the table once a row has got another account.
use octo_forge.Base.{
  ℕ, String, Bool, true, false, not, some, List, ◌&&◌, str_eq, eq_iff, any, first_where,
  update_where, touched, All, All-weaken, ◌≡◌, ap, arith, Bool-cases, inl, inr, ◌⊎◌, All-both,
}
use octo_forge.Identity.Rows.{UserIdentityRow, is_account, identity_clashes}
use octo_forge.Identity.Accounts.{IsAccounts, update-IsAccounts, only_row, any-All}

-- what a reseat writes
abbrev pub moved : String → ℕ → UserIdentityRow → UserIdentityRow
moved external_id now r = record r { external_id = external_id; active = true; updated_at = now }

-- A row of the table, seen from the one that is moved to an account.
abbrev pub IsBeside : UserIdentityRow → String → UserIdentityRow → Type 0
IsBeside row external_id x =
    ((str_eq x.id row.id ≡ false) ⊎ ((x.surface ≡ row.surface) × (x.user_id ≡ row.user_id)))
    × ((is_account row.surface external_id x && not (str_eq x.id row.id)) ≡ false)

pub beside :
    (q : UserIdentityRow → Bool) (rows : List UserIdentityRow) (row : UserIdentityRow)
    (external_id : String)
    → IsAccounts rows
    → first_where q rows ≡ some row
    → any (λ r. is_account row.surface external_id r && not (str_eq r.id row.id)) rows ≡ false
    → All (IsBeside row external_id) rows
beside q rows row external_id k h free =
    All-both
      (λ x. (str_eq x.id row.id ≡ false) ⊎ ((x.surface ≡ row.surface) × (x.user_id ≡ row.user_id)))
      (λ x. (is_account row.surface external_id x && not (str_eq x.id row.id)) ≡ false) rows
      (All-weaken other rows (only_row q rows row k h)) (any-All _ rows free)
  where
    other :
        (x : UserIdentityRow)
        → (x ≡ row) ⊎ (identity_clashes row x ≡ false)
        → (str_eq x.id row.id ≡ false) ⊎ ((x.surface ≡ row.surface) × (x.user_id ≡ row.user_id))
    other x (inl same) = inr (ap (λ r. r.surface) same, ap (λ r. r.user_id) same)
    other x (inr apart) = inl (ground (arith, apart))

pub moved-IsAccounts :
    (row : UserIdentityRow) (external_id : String) (now : ℕ) (rows : List UserIdentityRow)
    → All (IsBeside row external_id) rows
    → IsAccounts rows
    → IsAccounts (update_where (λ r. str_eq r.id row.id) (moved external_id now) rows)
moved-IsAccounts row external_id now rows hs k =
    update-IsAccounts (λ r. str_eq r.id row.id) (moved external_id now) (IsBeside row external_id)
      apart rows hs k
  where
    apart :
        (r x : UserIdentityRow)
        → IsBeside row external_id r
        → IsBeside row external_id x
        → identity_clashes r x ≡ false
        → identity_clashes
            (touched (λ y. str_eq y.id row.id) (moved external_id now) r)
            (touched (λ y. str_eq y.id row.id) (moved external_id now) x)
          ≡ false
    apart r x h k c = elim (Bool-cases (str_eq r.id row.id)) [
      | inl e ↦ elim (Bool-cases (str_eq x.id row.id)) [
        | inl d ↦
            absurd
              (ground (arith, e, d, c, eq_iff r.id row.id, eq_iff x.id row.id, eq_iff x.id r.id))
        | inr d ↦
            ground
              (arith, e, d, h.0, k.1, c, eq_iff x.surface r.surface, eq_iff x.surface row.surface)
      ]
      | inr e ↦ elim (Bool-cases (str_eq x.id row.id)) [
        | inl d ↦ ground (
          arith,
          e,
          d,
          k.0,
          h.1,
          c,
          eq_iff x.surface r.surface,
          eq_iff r.surface row.surface,
          eq_iff external_id r.external_id,
          eq_iff r.external_id external_id,
        )
        | inr d ↦ ground (arith, e, d, c)
      ]
    ]
