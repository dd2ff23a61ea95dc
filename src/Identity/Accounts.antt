-- ===== src/Identity/Accounts.antt =====
-- The table of accounts of core/src/octoforge_core/identity: its unique constraints under the
-- statements of identity/store.py.
use octo_forge.Base.{
  Bool, true, false, some, List, [], ◌∷◌, ◌++◌, eq_iff, any, first_where, update_where, touched,
  All, All-weaken, ◌≡◌, refl, sym, ◌∙◌, subst, arith, Bool-cases, inl, inr, ◌⊎◌,
}
use mathlib.Core.Option.{some_inj}
use octo_forge.Identity.Rows.{UserIdentityRow, identity_clashes}

-- No two rows share an id or an account.
abbrev pub IsAccounts : List UserIdentityRow → Type 0
IsAccounts [] = Unit
IsAccounts (r ∷ rows) = All (λ x. identity_clashes r x ≡ false) rows × IsAccounts rows

-- what stays of a row whatever is recorded about its account
abbrev pub KeepsAccount : (UserIdentityRow → UserIdentityRow) → Type 0
KeepsAccount f =
    (r : UserIdentityRow)
    → ((f r).id ≡ r.id)
      × ((f r).user_id ≡ r.user_id)
      × ((f r).surface ≡ r.surface)
      × ((f r).external_id ≡ r.external_id)

module _ (p : UserIdentityRow → Bool) (f : UserIdentityRow → UserIdentityRow)
    (P : UserIdentityRow → Type 0)
    (apart : (r x : UserIdentityRow)
      → P r
      → P x
      → identity_clashes r x ≡ false
      → identity_clashes (touched p f r) (touched p f x) ≡ false) where
  update-clear :
      (r : UserIdentityRow) (rows : List UserIdentityRow)
      → P r
      → All P rows
      → All (λ x. identity_clashes r x ≡ false) rows
      → All (λ x. identity_clashes (touched p f r) x ≡ false) (update_where p f rows)
  update-clear r [] h hs k = tt
  update-clear r (x ∷ rows) h hs k = (apart r x h hs.0 k.0, update-clear r rows h hs.1 k.1)

  pub update-IsAccounts :
      (rows : List UserIdentityRow)
      → All P rows
      → IsAccounts rows
      → IsAccounts (update_where p f rows)
  update-IsAccounts [] hs k = tt
  update-IsAccounts (r ∷ rows) hs k =
      (update-clear r rows hs.0 hs.1 k.0, update-IsAccounts rows hs.1 k.1)

All-trivial : (rows : List UserIdentityRow) → All (λ x. Unit {0}) rows
All-trivial [] = tt
All-trivial (r ∷ rows) = (tt, All-trivial rows)

-- Statements that touch neither ids nor accounts keep the constraints.
pub keeps-IsAccounts :
    (p : UserIdentityRow → Bool) (f : UserIdentityRow → UserIdentityRow)
    (rows : List UserIdentityRow)
    → KeepsAccount f
    → IsAccounts rows
    → IsAccounts (update_where p f rows)
keeps-IsAccounts p f rows keeps k =
    update-IsAccounts p f (λ x. Unit) (λ r x _ _ h. ground (arith, keeps r, keeps x)) rows
      (All-trivial rows) k

pub any-All :
    (q : UserIdentityRow → Bool) (rows : List UserIdentityRow)
    → any q rows ≡ false
    → All (λ x. q x ≡ false) rows
any-All q [] h = tt
any-All q (x ∷ rows) h = ground (arith, any-All q rows)

clashes_sym : (a b : UserIdentityRow) → identity_clashes a b ≡ false → identity_clashes b a ≡ false
clashes_sym a b h = ground (
  arith,
  eq_iff a.id b.id,
  eq_iff b.id a.id,
  eq_iff a.surface b.surface,
  eq_iff b.surface a.surface,
  eq_iff a.external_id b.external_id,
  eq_iff b.external_id a.external_id,
)

snoc-clear :
    (r : UserIdentityRow) (rows : List UserIdentityRow) (t : UserIdentityRow)
    → identity_clashes r t ≡ false
    → All (λ x. identity_clashes r x ≡ false) rows
    → All (λ x. identity_clashes r x ≡ false) (rows ++ t ∷ [])
snoc-clear r [] t h k = (h, tt)
snoc-clear r (x ∷ rows) t h k = (k.0, snoc-clear r rows t h k.1)

append-IsAccounts' :
    (rows : List UserIdentityRow) (t : UserIdentityRow)
    → All (λ x. identity_clashes t x ≡ false) rows
    → IsAccounts rows
    → IsAccounts (rows ++ t ∷ [])
append-IsAccounts' [] t h k = (tt, tt)
append-IsAccounts' (r ∷ rows) t h k =
    (snoc-clear r rows t (clashes_sym t r h.0) k.0, append-IsAccounts' rows t h.1 k.1)

-- An INSERT that meets no constraint keeps them.
pub append-IsAccounts :
    (rows : List UserIdentityRow) (t : UserIdentityRow)
    → any (identity_clashes t) rows ≡ false
    → IsAccounts rows
    → IsAccounts (rows ++ t ∷ [])
append-IsAccounts rows t h k = append-IsAccounts' rows t (any-All (identity_clashes t) rows h) k

-- A row that was selected passes the selection.
pub first-passes :
    (q : UserIdentityRow → Bool) (rows : List UserIdentityRow) (row : UserIdentityRow)
    → first_where q rows ≡ some row
    → q row ≡ true
first-passes q [] row h = absurd (ground (arith, h))
first-passes q (x ∷ rows) row h = elim (Bool-cases (q x)) [
  | inl e ↦ subst (λ y. q y ≡ true) (some_inj.0 (sym (rw e refl) ∙ h)) e
  | inr e ↦ first-passes q rows row (ground (arith, e, h))
]

-- A selected row is the only one with its id, and the only one with its account.
pub only_row :
    (q : UserIdentityRow → Bool) (rows : List UserIdentityRow) (row : UserIdentityRow)
    → IsAccounts rows
    → first_where q rows ≡ some row
    → All (λ x. (x ≡ row) ⊎ (identity_clashes row x ≡ false)) rows
only_row q [] row k h = absurd (ground (arith, h))
only_row q (x ∷ rows) row k h = elim (Bool-cases (q x)) [
  | inl e ↦
      let same : x ≡ row = some_inj.0 (sym (rw e refl) ∙ h) in
      (
        inl same,
        All-weaken (λ y c. inr c) rows
            (subst (λ z. All (λ y. identity_clashes z y ≡ false) rows) same k.0),
      )
  | inr e ↦
      let later : first_where q rows ≡ some row = ground (arith, e, h) in
      (inr (clashes_sym x row (behind rows later k.0)), only_row q rows row k.1 later)
]
  where
    behind :
        (l : List UserIdentityRow)
        → first_where q l ≡ some row
        → All (λ y. identity_clashes x y ≡ false) l
        → identity_clashes x row ≡ false
    behind [] e c = absurd (ground (arith, e))
    behind (y ∷ l) e c = elim (Bool-cases (q y)) [
      | inl t ↦
          let same : y ≡ row = some_inj.0 (sym (rw t refl) ∙ e) in
          subst (λ z. identity_clashes x z ≡ false) same c.0
      | inr t ↦ behind l (ground (arith, t, e)) c.1
    ]
