-- ===== src/Dialogs/Preemption.antt =====
-- Histories of statements on the table `dialog_claims` (core/src/octoforge_core/dialogs/store.py), seen
-- from the previous owner of a dialog.
use octo_forge.Base.{
  ℕ, String, Bool, true, false, not, Option, none, some, List, [], ◌∷◌, ◌≡◌, ◌≢◌, ◌⊎◌, refl, ◌∙◌,
  sym, ◌&&◌, str_eq, eq_iff, if◌then◌else◌, opt_test, ◌==◌, arith, any, map, All, select_where,
  delete_where, get_by, IsKeyed, touched, get-update, get-delete, get-absent, absent_behind,
  update-IsKeyed, delete-IsKeyed, append-IsKeyed, absent_of_get, Bool-cases, Option-cases, inl, inr,
}
use mathlib.Core.Option
use octo_forge.Dialogs.Claims.{
  DialogClaim, Claims, dialog, first_claim, taken, claim_upsert, claim, held_of, same_claim,
  is_kept, refreshed, heartbeat, release, delete_for_dialog,
}
use octo_forge.Dialogs.Fencing.{claimed, get-claim}

-- What other processes, and the same one, send to the table.
pub data Statement : Type 0 where
  claiming : String → String → ℕ → Statement
  refreshing : List DialogClaim → ℕ → Statement
  releasing : String → String → ℕ → Statement
  deleting : String → Statement

pub apply : Statement → Claims → Claims
apply (claiming id owner now) rows = (claim id owner now rows).1
apply (refreshing claims now) rows = (heartbeat claims now rows).1
apply (releasing id owner generation) rows = release id owner generation rows
apply (deleting id) rows = delete_for_dialog id rows

pub history : List Statement → Claims → Claims
history [] rows = rows
history (s ∷ ss) rows = history ss (apply s rows)

-- not a claim of dialog `id` by `owner`
abbrev pub Abstains : String → String → Statement → Type 0
Abstains id owner (claiming id' owner' _) = id' ≡ id → owner' ≢ owner
Abstains id owner _ = Unit

-- whether somebody else's name, or nobody's, is on the dialog
abbrev is_lost : String → Option DialogClaim → Bool
is_lost owner none = true
is_lost owner (some c) = not (str_eq c.owner owner)

record Lost (id owner : String) (rows : Claims) : Type 0 where
  keyed : IsKeyed dialog rows
  lost : is_lost owner (get_by dialog id rows) ≡ true

claimed_lost :
    (id owner owner' : String) (now : ℕ) (o : Option DialogClaim)
    → owner' ≢ owner
    → is_lost owner (some (claimed id owner' now o)) ≡ true
claimed_lost id owner owner' now none ne = ground (arith, eq_iff owner' owner)
claimed_lost id owner owner' now (some c) ne = ground (arith, eq_iff owner' owner)

claim-IsKeyed :
    (id' owner' : String) (now : ℕ) (rows : Claims)
    → IsKeyed dialog rows
    → IsKeyed dialog (claim id' owner' now rows).1
unfolding claim claim_upsert
claim-IsKeyed id' owner' now rows h = elim (Option-cases (get_by dialog id' rows)) [
  | inl absent ↦ rw (absent) (
      append-IsKeyed dialog rows (first_claim id' owner' now) (absent_of_get dialog id' rows absent)
        h)
  | inr (c, found) ↦
      rw (found)
        (update-IsKeyed dialog (λ r. str_eq r.dialog_id id') (taken owner' now) rows (λ r. refl) h)
]

module _ {id owner : String} {rows : Claims} where
  Lost-delete : (p : DialogClaim → Bool) → Lost id owner rows → Lost id owner (delete_where p rows)
  Lost-delete p h = record {
    keyed = delete-IsKeyed dialog p rows h.keyed;
    lost = rw (get-delete dialog id p rows h.keyed) (go (opt_test p (get_by dialog id rows)));
  }
    where
      go : (b : Bool) → is_lost owner (if b then none else get_by dialog id rows) ≡ true
      go true = refl
      go false = h.lost

  Lost-claim :
      (id' owner' : String) (now : ℕ)
      → (id' ≡ id → owner' ≢ owner)
      → IsKeyed dialog rows
      → (id' ≡ id) ⊎ Lost id owner rows
      → Lost id owner (claim id' owner' now rows).1
  Lost-claim id' owner' now other h at = record {
    keyed = claim-IsKeyed id' owner' now rows h;
    lost = rw (get-claim id' owner' now rows id) (elim (Bool-cases (str_eq id' id)) [
      | inl same ↦ rw same (
          claimed_lost id' owner owner' now (get_by dialog id' rows)
            (other ((eq_iff id' id).0 same)))
      | inr differs ↦
          rw differs (elim at [ inl e ↦ ground (arith, eq_iff id' id) | inr l ↦ l.lost ])
    ]);
  }

  apply-Lost :
      (s : Statement) → Abstains id owner s → Lost id owner rows → Lost id owner (apply s rows)
  unfolding apply heartbeat release delete_for_dialog
  apply-Lost (claiming id' owner' now) other h = Lost-claim id' owner' now other h.keyed (inr h)
  apply-Lost (refreshing claims now) _ h = record {
    keyed = update-IsKeyed dialog _ (refreshed now) rows (λ r. refl) h.keyed;
    lost =
        rw
          (get-update dialog id
            (λ row. any (str_eq row.dialog_id) (map dialog (select_where (is_kept claims) rows)))
            (refreshed now) rows (λ r. refl))
          (go (get_by dialog id rows) h.lost);
  }
    where
      go :
          (o : Option DialogClaim)
          → is_lost owner o ≡ true
          → is_lost owner (
              Option.map
                (touched
                  (λ row.
                    any (str_eq row.dialog_id) (map dialog (select_where (is_kept claims) rows)))
                  (refreshed now))
                o)
            ≡ true
      go none e = refl
      go (some c) e = ground arith
  apply-Lost (releasing id' owner' g) _ h = Lost-delete _ h
  apply-Lost (deleting id') _ h = Lost-delete _ h

history-Lost :
    (id owner : String) (ss : List Statement) (rows : Claims)
    → All (Abstains id owner) ss
    → Lost id owner rows
    → Lost id owner (history ss rows)
unfolding history
history-Lost id owner [] rows others h = h
history-Lost id owner (s ∷ ss) rows others h =
    history-Lost id owner ss (apply s rows) others.1 (apply-Lost s others.0 h)

-- A dialog is among those of the selected rows iff its own row passes.
any-select :
    (id : String) (p : DialogClaim → Bool) (rows : Claims)
    → IsKeyed dialog rows
    → any (str_eq id) (map dialog (select_where p rows)) ≡ opt_test p (get_by dialog id rows)
any-select id p [] h = refl
any-select id p (r ∷ rows) h = elim (Bool-cases (str_eq r.dialog_id id)) [
  | inl same ↦ ground (
    arith,
    same,
    eq_iff r.dialog_id id,
    eq_iff id r.dialog_id,
    any-select id p rows h.1,
    get-absent dialog id rows (absent_behind dialog id r rows h same),
  )
  | inr other ↦
      ground (arith, other, eq_iff r.dialog_id id, eq_iff id r.dialog_id, any-select id p rows h.1)
]

held_of-owner :
    (owner : String) (claims : List DialogClaim) (id : String) (c : DialogClaim)
    → All (λ x. x.owner ≡ owner) claims
    → held_of claims id ≡ some c
    → c.owner ≡ owner
held_of-owner owner [] id c h e = ground arith
held_of-owner owner (x ∷ claims) id c h e = ground (arith, held_of-owner owner claims id c h.1)

not_kept :
    (owner : String) (claims : List DialogClaim) (o : Option DialogClaim)
    → All (λ x. x.owner ≡ owner) claims
    → is_lost owner o ≡ true
    → opt_test (is_kept claims) o ≡ false
not_kept owner claims none h e = refl
not_kept owner claims (some c) h e =
    go (held_of claims c.dialog_id) (λ x. held_of-owner owner claims c.dialog_id x h)
  where
    go :
        (o : Option DialogClaim)
        → ((x : DialogClaim) → o ≡ some x → x.owner ≡ owner)
        → opt_test (same_claim c) o ≡ false
    go none named = refl
    go (some x) named = ground (arith, named x refl, eq_iff x.owner c.owner, eq_iff c.owner owner)

not_released :
    (id owner : String) (g : ℕ) (rows : Claims)
    → Lost id owner rows
    → get_by dialog id (release id owner g rows) ≡ get_by dialog id rows
unfolding release
not_released id owner g rows h =
    rw (get-delete dialog id _ rows h.keyed) (go (get_by dialog id rows) h.lost)
  where
    go :
        (o : Option DialogClaim)
        → is_lost owner o ≡ true
        → (if opt_test (λ c. str_eq c.dialog_id id && (str_eq c.owner owner && c.generation == g)) o
            then none
            else o)
          ≡ o
    go none e = refl
    go (some c) e = ground arith

-- Once another process has claimed a dialog, and however the table goes on as long as the first
-- owner does not claim the dialog again, a heartbeat of the first owner's claims, whichever
-- generations they carry, does not report the dialog as kept, and a release in its name does not
-- touch the dialog's row.
pub preempted :
    (id owner thief : String) (now : ℕ) (rows : Claims)
    → IsKeyed dialog rows
    → thief ≢ owner
    → (ss : List Statement) → All (Abstains id owner) ss
    → (claims : List DialogClaim) (t g : ℕ) → All (λ c. c.owner ≡ owner) claims
    → (any (str_eq id) (heartbeat claims t (history ss (claim id thief now rows).1)).0 ≡ false)
      × (get_by dialog id (release id owner g (history ss (claim id thief now rows).1))
          ≡ get_by dialog id (history ss (claim id thief now rows).1))
unfolding heartbeat
preempted id owner thief now rows keyed ne ss others claims t g owned =
    let h =
      history-Lost id owner ss (claim id thief now rows).1 others
        (Lost-claim id thief now (λ _. ne) keyed (inl refl)) in
    (
      any-select id (is_kept claims) (history ss (claim id thief now rows).1) h.keyed
          ∙ not_kept owner claims _ owned h.lost,
      not_released id owner g (history ss (claim id thief now rows).1) h,
    )

kept_lost :
    (owner other : String) (claims : List DialogClaim) (o : Option DialogClaim)
    → All (λ x. x.owner ≡ owner) claims
    → other ≢ owner
    → opt_test (is_kept claims) o ≡ true
    → is_lost other o ≡ true
kept_lost owner other claims none h ne kept = refl
kept_lost owner other claims (some c) h ne kept =
    go (held_of claims c.dialog_id) (λ x. held_of-owner owner claims c.dialog_id x h) kept
  where
    go :
        (o : Option DialogClaim)
        → ((x : DialogClaim) → o ≡ some x → x.owner ≡ owner)
        → opt_test (same_claim c) o ≡ true
        → is_lost other (some c) ≡ true
    go none named e = ground (arith, e)
    go (some x) named e =
        ground (arith, e, ne, named x refl, eq_iff x.owner c.owner, eq_iff c.owner other)

-- Two processes never both keep a dialog: when a heartbeat reports the dialog as kept by one owner, a
-- heartbeat of another owner's claims that comes next, whichever generations these carry, does not.
pub one_keeper :
    (id owner other : String) (rows : Claims)
    → IsKeyed dialog rows
    → other ≢ owner
    → (claims rivals : List DialogClaim) (t t' : ℕ) → All (λ c. c.owner ≡ owner) claims
    → All (λ c. c.owner ≡ other) rivals
    → any (str_eq id) (heartbeat claims t rows).0 ≡ true
    → any (str_eq id) (heartbeat rivals t' (heartbeat claims t rows).1).0 ≡ false
unfolding heartbeat apply
one_keeper id owner other rows keyed ne claims rivals t t' owned rival kept =
    let h : Lost id other rows = record {
      keyed = keyed;
      lost =
          kept_lost owner other claims (get_by dialog id rows) owned ne
            (sym (any-select id (is_kept claims) rows keyed) ∙ kept);
    } in
    let after : Lost id other (heartbeat claims t rows).1 = apply-Lost (refreshing claims t) tt h in
    any-select id (is_kept rivals) (heartbeat claims t rows).1 after.keyed
    ∙ not_kept other rivals (get_by dialog id (heartbeat claims t rows).1) rival after.lost
