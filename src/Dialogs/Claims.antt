-- ===== src/Dialogs/Claims.antt =====
-- `SqlAlchemyClaimRepository` of core/src/octoforge_core/dialogs/store.py, over the table
-- `dialog_claims`, whose primary key is the dialog. Each method is one transaction and is taken as one
-- step, also where it reads a row and then writes it: nothing comes between its statements. `now` is
-- what `utc_now()` answers in it. A set of ids is the list of its members.
use octo_forge.Base.{
  ℕ, ◌+◌, String, Bool, not, Option, none, some, List, [], ◌∷◌, ◌++◌, ◌&&◌, str_eq, if◌then◌else◌,
  is_none, opt_test, ◌==◌, leb, any, map, select_where, update_where, delete_where, get_by,
}
use mathlib.Core.Option

-- a row of the table, and what a claimant is handed: `DialogClaim` has the same fields
pub record DialogClaim : Type 0 where
  pub dialog_id : String
  pub owner : String
  pub generation : ℕ
  pub heartbeat_at : ℕ

abbrev pub Claims : Type 0
Claims = List DialogClaim

abbrev pub dialog : DialogClaim → String
dialog c = c.dialog_id

abbrev pub first_generation : ℕ
first_generation = 1

abbrev pub taken : String → ℕ → DialogClaim → DialogClaim
taken owner now c = record c { owner = owner; generation = c.generation + 1; heartbeat_at = now }

abbrev pub first_claim : String → String → ℕ → DialogClaim
first_claim id owner now = record {
  dialog_id = id;
  owner = owner;
  generation = first_generation;
  heartbeat_at = now;
}

-- INSERT .. ON CONFLICT (dialog_id) DO UPDATE
unfoldable pub claim_upsert : String → String → ℕ → Claims → Claims
claim_upsert id owner now rows =
    if is_none (get_by dialog id rows)
    then rows ++ first_claim id owner now ∷ []
    else update_where (λ c. str_eq c.dialog_id id) (taken owner now) rows

-- RETURNING generation, read from the row as it now is
unfoldable pub claim : String → String → ℕ → Claims → DialogClaim × Claims
claim id owner now rows =
    let after = claim_upsert id owner now rows in
    (
      record {
        dialog_id = id;
        owner = owner;
        generation = elim (get_by dialog id after) [
          | none ↦ first_generation
          | some c ↦ c.generation
        ];
        heartbeat_at = now;
      },
      after,
    )

-- `{claim.dialog_id: claim for claim in claims}`: the last claim of a dialog counts.
abbrev pub held_of : List DialogClaim → String → Option DialogClaim
held_of [] id = none
held_of (c ∷ claims) id = elim (held_of claims id) [
  | some later ↦ some later
  | none ↦ if str_eq c.dialog_id id then some c else none
]

-- `claim.owner == owner and claim.generation == generation`
abbrev pub same_claim : DialogClaim → DialogClaim → Bool
same_claim row c = str_eq c.owner row.owner && c.generation == row.generation

abbrev pub is_kept : List DialogClaim → DialogClaim → Bool
is_kept claims row = opt_test (same_claim row) (held_of claims row.dialog_id)

abbrev pub refreshed : ℕ → DialogClaim → DialogClaim
refreshed now row = record row { heartbeat_at = now }

unfoldable pub heartbeat : List DialogClaim → ℕ → Claims → List String × Claims
heartbeat claims now rows =
    let kept = map dialog (select_where (is_kept claims) rows) in
    (kept, update_where (λ row. any (str_eq row.dialog_id) kept) (refreshed now) rows)

unfoldable pub release : String → String → ℕ → Claims → Claims
release id owner generation =
    delete_where
      (λ c. str_eq c.dialog_id id && (str_eq c.owner owner && c.generation == generation))

-- `owner != owner AND heartbeat_at >= stale_before`
abbrev pub is_elsewhere : List String → String → ℕ → DialogClaim → Bool
is_elsewhere ids owner stale_before c =
    any (str_eq c.dialog_id) ids && (not (str_eq c.owner owner) && leb stale_before c.heartbeat_at)

unfoldable pub held_elsewhere : List String → String → ℕ → Claims → List String
held_elsewhere ids owner stale_before rows =
    map dialog (select_where (is_elsewhere ids owner stale_before) rows)

unfoldable pub current_generation : String → Claims → Option ℕ
current_generation id rows = Option.map (λ c. c.generation) (get_by dialog id rows)

unfoldable pub delete_for_dialog : String → Claims → Claims
delete_for_dialog id = delete_where (λ c. str_eq c.dialog_id id)
