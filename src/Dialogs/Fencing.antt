-- ===== src/Dialogs/Fencing.antt =====
-- What a claim of a dialog hands out and leaves in the table (`claim` of
-- core/src/octoforge_core/dialogs/store.py).
use octo_forge.Base.{
  ℕ, ◌+◌, String, true, false, Option, none, some, ◌≡◌, refl, sym, ap, ◌∙◌, str_eq, eq_iff,
  if◌then◌else◌, opt_test, arith, get_by, touched, get-update, get-append, key-get, Bool-cases,
  Option-cases, inl, inr,
}
use mathlib.Core.Option
use octo_forge.Dialogs.Claims.{
  DialogClaim, Claims, dialog, first_generation, first_claim, taken, claim_upsert, claim,
  current_generation,
}

-- the row of a dialog that is claimed
abbrev pub claimed : String → String → ℕ → Option DialogClaim → DialogClaim
claimed id owner now none = first_claim id owner now
claimed id owner now (some c) = taken owner now c

-- The row of any dialog after a claim of one.
pub get-claim :
    (id owner : String) (now : ℕ) (rows : Claims) (k : String)
    → get_by dialog k (claim id owner now rows).1 ≡ (
        if str_eq id k
        then some (claimed id owner now (get_by dialog id rows))
        else get_by dialog k rows)
unfolding claim claim_upsert
get-claim id owner now rows k = elim (Option-cases (get_by dialog id rows)) [
  | inl absent ↦ rw (absent) (
      rw (get-append dialog k rows (first_claim id owner now)) (elim (Bool-cases (str_eq id k)) [
        | inl same ↦ (let e : id ≡ k = (eq_iff id k).0 same in rw (same, sym e, absent) refl)
        | inr other ↦ rw other (keep (get_by dialog k rows))
      ]))
  | inr (c, found) ↦ rw (found) (
      rw (get-update dialog k (λ r. str_eq r.dialog_id id) (taken owner now) rows (λ r. refl))
        (elim (Bool-cases (str_eq id k)) [
          | inl same ↦
              (let e : id ≡ k = (eq_iff id k).0 same in
                rw (same, sym e, found, (eq_iff c.dialog_id id).1 (key-get dialog id rows c found))
                  refl)
          | inr other ↦ rw other (skip (get_by dialog k rows) (key-get dialog k rows) other)
        ]))
]
  where
    keep : (o : Option DialogClaim) → (if opt_test (λ _. true) o then o else none) ≡ o
    keep none = refl
    keep (some c) = refl

    skip :
        (o : Option DialogClaim)
        → ((c : DialogClaim) → o ≡ some c → c.dialog_id ≡ k)
        → str_eq id k ≡ false
        → Option.map (touched (λ r. str_eq r.dialog_id id) (taken owner now)) o ≡ o
    skip none named other = refl
    skip (some c) named other = ground (arith, named c refl, eq_iff id k, eq_iff c.dialog_id id)

pub get-claim_same :
    (id owner : String) (now : ℕ) (rows : Claims)
    → get_by dialog id (claim id owner now rows).1
      ≡ some (claimed id owner now (get_by dialog id rows))
get-claim_same id owner now rows =
    get-claim id owner now rows id
    ∙ ap
        (λ b.
          if b then some (claimed id owner now (get_by dialog id rows)) else get_by dialog id rows)
        ((eq_iff id id).1 refl)

generation-claim :
    (id owner : String) (now : ℕ) (rows : Claims)
    → (claim id owner now rows).0.generation
      ≡ (claimed id owner now (get_by dialog id rows)).generation
unfolding claim
generation-claim id owner now rows =
    ap (λ o. elim o as (λ _. ℕ) [ none ↦ first_generation | some c ↦ c.generation ])
      (get-claim_same id owner now rows)

-- The generation that a claim hands out is the first one on a free dialog, and one more than the
-- stored one else; and it is what is stored afterwards.
pub claim_generation :
    (id owner : String) (now : ℕ) (rows : Claims)
    → ((claim id owner now rows).0.generation
        ≡ elim (current_generation id rows) [ none ↦ first_generation | some g ↦ g + 1 ])
      × (current_generation id (claim id owner now rows).1
          ≡ some (claim id owner now rows).0.generation)
unfolding current_generation
claim_generation id owner now rows =
    rw (get-claim_same id owner now rows, generation-claim id owner now rows)
      (go (get_by dialog id rows), refl)
  where
    go :
        (o : Option DialogClaim)
        → (claimed id owner now o).generation
          ≡ elim (Option.map (λ c. c.generation) o) as (λ _. ℕ) [
            | none ↦ first_generation
            | some g ↦ g + 1
          ]
    go none = refl
    go (some c) = refl
