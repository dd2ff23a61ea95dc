-- ===== src/Dialogs/Lookup.antt =====
-- Which dialog `SqlAlchemyDialogRepository.get_or_create` of core/src/octoforge_core/dialogs/store.py finds.
use octo_forge.Base.{
  ℕ, String, Bool, true, Option, none, some, [], ◌∷◌, ◌++◌, eq_iff, any, Result, ok, err,
  first_where, ◌≡◌, refl, sym, ap, ◌∙◌, subst, arith, Bool-cases, inl, inr,
}
use octo_forge.Domain.{Dialog}
use octo_forge.Dialogs.Log.{IntegrityError}
use octo_forge.Dialogs.Registry.{
  Dialogs, is_between, find_row, new_dialog, clashes, insert_dialog, found_or, get_or_create,
}

first_where-append :
    (p : Dialog → Bool) (rows : Dialogs) (x : Dialog)
    → first_where p rows ≡ none
    → p x ≡ true
    → first_where p (rows ++ x ∷ []) ≡ some x
first_where-append p [] x h in_ = rw in_ refl
first_where-append p (r ∷ rows) x h in_ = ground (arith, first_where-append p rows x)

abbrev pair_or : Dialog × Dialogs → Result IntegrityError (Dialog × Dialogs) → Dialog × Dialogs
pair_or p (ok r) = r
pair_or p (err e) = p

-- The dialog that an answer names is the one that the next lookup finds.
found_again :
    (user_id channel id : String) (now : ℕ) (seen stored : Dialogs) (r : Dialog × Dialogs)
    → find_row user_id channel seen ≡ find_row user_id channel stored
    → get_or_create user_id channel id now seen stored ≡ ok r
    → find_row user_id channel r.1 ≡ some r.0
unfolding get_or_create find_row
found_again user_id channel id now seen stored r same done =
    go (first_where (is_between user_id channel) seen) refl done
  where
    go :
        (o : Option Dialog)
        → first_where (is_between user_id channel) seen ≡ o
        → found_or o (new_dialog id user_id channel now) stored ≡ ok r
        → first_where (is_between user_id channel) r.1 ≡ some r.0
    go (some d) found e =
        subst (λ x. first_where (is_between user_id channel) x.1 ≡ some x.0) (ap (pair_or r) e)
          (sym same ∙ found)
    go none found e = elim (Bool-cases (any (clashes (new_dialog id user_id channel now)) stored)) [
      | inl taken ↦ absurd (ground (arith, taken, e))
      | inr free ↦
          let kept : insert_dialog (new_dialog id user_id channel now) stored
              ≡ ok (
                new_dialog id user_id channel now,
                stored ++ new_dialog id user_id channel now ∷ [],
              ) =
            rw free refl in
          subst (λ x. first_where (is_between user_id channel) x.1 ≡ some x.0)
            (ap (pair_or r) (sym kept ∙ e))
            (first_where-append (is_between user_id channel) stored
              (new_dialog id user_id channel now) (sym same ∙ found)
              (ground (arith, eq_iff user_id user_id, eq_iff channel channel)))
    ]

-- Once `get_or_create` has answered with a dialog, it answers with the same one again and changes
-- nothing, under whatever id the caller would have given to a new one.
pub get_or_create_stable :
    (user_id channel id id' : String) (now now' : ℕ) (rows : Dialogs) (r : Dialog × Dialogs)
    → get_or_create user_id channel id now rows rows ≡ ok r
    → get_or_create user_id channel id' now' r.1 r.1 ≡ ok r
unfolding get_or_create
get_or_create_stable user_id channel id id' now now' rows r done =
    rw (found_again user_id channel id now rows rows r refl done) refl
