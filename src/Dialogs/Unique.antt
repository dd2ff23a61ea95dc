-- ===== src/Dialogs/Unique.antt =====
-- The unique constraints of the table `messages` (core/src/octoforge_core/dialogs/models.py) as an
-- invariant of the appends of dialogs/store.py.
use octo_forge.Dialogs.Appending.{alone}
use octo_forge.Base.{
  ℕ, ◌+◌, String, true, false, Option, none, some, [], ◌∷◌, ◌++◌, ◌&&◌, ◌||◌, str_eq, eq_iff,
  opt_test, ◌==◌, any, Result, ok, err, All, ◌≡◌, ◌≢◌, refl, sym, ap, ◌∙◌, arith, inl, inr,
  select_where, Bool-cases, subst, any-append, IsApart,
}
use octo_forge.Domain.{ChatMessage}
use octo_forge.Dialogs.Messages.{new_row, max_seq, MessageRow, Messages, Spent}
use octo_forge.Dialogs.Log.{
  of_dialog, conflicts, insert, IntegrityError, unique_violation, Race, attempt_row, append,
}
use octo_forge.Dialogs.Races.{Answered, inserted, raised, retried, append-Answered, ok≢err}

-- A table that the unique constraints allow.
abbrev pub IsLog : Messages → Type 0
IsLog [] = Unit
IsLog (r ∷ rows) = (any (conflicts r) rows ≡ false) × IsLog rows

conflicts_sym : (a b : MessageRow) → conflicts a b ≡ false → conflicts b a ≡ false
conflicts_sym a b h = go a.client_message_id b.client_message_id h
  where
    go :
        (x y : Option String)
        → (str_eq b.id a.id
            || ((str_eq b.dialog_id a.dialog_id && (b.seq == a.seq))
                || opt_test
                    (λ key. str_eq b.dialog_id a.dialog_id && opt_test (λ k. str_eq k key) y)
                    x))
          ≡ false
        → (str_eq a.id b.id
            || ((str_eq a.dialog_id b.dialog_id && (a.seq == b.seq))
                || opt_test
                    (λ key. str_eq a.dialog_id b.dialog_id && opt_test (λ k. str_eq k key) x)
                    y))
          ≡ false
    go none none k = ground (
      arith,
      eq_iff a.id b.id,
      eq_iff b.id a.id,
      eq_iff a.dialog_id b.dialog_id,
      eq_iff b.dialog_id a.dialog_id,
      k,
    )
    go none (some y) k = ground (
      arith,
      eq_iff a.id b.id,
      eq_iff b.id a.id,
      eq_iff a.dialog_id b.dialog_id,
      eq_iff b.dialog_id a.dialog_id,
      k,
    )
    go (some x) none k = ground (
      arith,
      eq_iff a.id b.id,
      eq_iff b.id a.id,
      eq_iff a.dialog_id b.dialog_id,
      eq_iff b.dialog_id a.dialog_id,
      k,
    )
    go (some x) (some y) k = ground (
      arith,
      eq_iff a.id b.id,
      eq_iff b.id a.id,
      eq_iff a.dialog_id b.dialog_id,
      eq_iff b.dialog_id a.dialog_id,
      eq_iff x y,
      eq_iff y x,
      k,
    )

snoc-IsLog :
    (rows : Messages) (new : MessageRow)
    → IsLog rows
    → any (conflicts new) rows ≡ false
    → IsLog (rows ++ new ∷ [])
snoc-IsLog [] new h free = (refl, tt)
snoc-IsLog (r ∷ rows) new h free = (
  rw (any-append (conflicts r) rows (new ∷ [])) ground (arith, h.0, conflicts_sym new r),
  snoc-IsLog rows new h.1 (ground arith),
)

abbrev rows_of : Result IntegrityError (String × Messages) → Messages
rows_of (ok r) = r.1
rows_of (err e) = []

abbrev pair_of : String × Messages → Result IntegrityError (String × Messages) → String × Messages
pair_of p (ok r) = r
pair_of p (err e) = p

abbrev after_insert : Messages → Result IntegrityError Messages → Messages
after_insert rows (ok after) = after
after_insert rows (err e) = rows

-- An INSERT that goes through appends its row, which breaks no constraint.
insert_shape :
    (new : MessageRow) (rows after : Messages)
    → insert new rows ≡ ok after
    → (any (conflicts new) rows ≡ false) × (after ≡ rows ++ new ∷ [])
unfolding insert
insert_shape new rows after e = elim (Bool-cases (any (conflicts new) rows)) [
  | inl taken ↦ absurd (ok≢err {e = unique_violation} (sym e ∙ rw taken refl))
  | inr free ↦
      let kept : insert new rows ≡ ok (rows ++ new ∷ []) = rw free refl in
      (free, ap (after_insert rows) (sym e ∙ kept))
]

insert-IsLog :
    (new : MessageRow) (rows after : Messages)
    → IsLog rows
    → insert new rows ≡ ok after
    → IsLog after
insert-IsLog new rows after h e =
    let shape = insert_shape new rows after e in
    subst IsLog (sym shape.1) (snoc-IsLog rows new h shape.0)

-- An append keeps the table within its unique constraints, whatever other writers did between its
-- attempts, if the tables that it inserted into were: no two rows share an id, a seq of a dialog or
-- a client's key.
pub append-IsLog :
    (race : Race) (d : String) (message : ChatMessage) (usage : Option Spent)
    (client : Option String) (r : String × Messages)
    → ((k : ℕ) → IsLog (race.stored k))
    → append race d message usage client ≡ ok r
    → IsLog r.1
append-IsLog race d message usage client r within appended =
    go 0 _ (append-Answered race d message usage client) appended
  where
    go :
        (k : ℕ) (answer : Result IntegrityError (String × Messages))
        → Answered race d message usage client k answer
        → answer ≡ ok r
        → IsLog r.1
    go k answer (inserted _ rows e) same =
        subst IsLog (ap rows_of same) (
          insert-IsLog (attempt_row race d message usage client k) (race.stored k) rows (within k)
            e)
    go k answer (raised _ e last failed) same = absurd (ok≢err (sym same))
    go k answer (retried _ e _ more failed rest) same = go (k + 1) answer rest same

free_apart :
    (d : String) (r : MessageRow) (rows : Messages)
    → of_dialog d r ≡ true
    → any (conflicts r) rows ≡ false
    → All (λ s. s.seq ≢ r.seq) (select_where (of_dialog d) rows)
free_apart d r [] mine h = tt
free_apart d r (s ∷ rows) mine h = elim (Bool-cases (of_dialog d s)) [
  | inl own ↦ rw own (
    ground
        (arith, mine, eq_iff s.dialog_id r.dialog_id, eq_iff r.dialog_id d, eq_iff s.dialog_id d),
    free_apart d r rows mine (ground arith),
  )
  | inr other ↦ rw other (free_apart d r rows mine (ground arith))
]

-- Within the unique constraints, no two messages of a dialog share a seq.
pub IsLog→IsApart :
    (d : String) (rows : Messages)
    → IsLog rows
    → IsApart (λ r. r.seq) (select_where (of_dialog d) rows)
IsLog→IsApart d [] h = tt
IsLog→IsApart d (r ∷ rows) h = elim (Bool-cases (of_dialog d r)) [
  | inl mine ↦ rw mine (free_apart d r rows mine h.0, IsLog→IsApart d rows h.1)
  | inr other ↦ rw other (IsLog→IsApart d rows h.1)
]

-- The only writer's append adds one row at the end, with the seq behind the highest one.
pub append_shape :
    (ids : ℕ → String) (rows : Messages) (now : ℕ) (d : String) (message : ChatMessage)
    (usage : Option Spent) (client : Option String) (r : String × Messages)
    → append (alone ids rows now) d message usage client ≡ ok r
    → r.1 ≡ rows ++ new_row r.0 d (max_seq d rows + 1) message usage client now ∷ []
append_shape ids rows now d message usage client r appended =
    go 0 _ (append-Answered (alone ids rows now) d message usage client) appended
  where
    go :
        (k : ℕ) (answer : Result IntegrityError (String × Messages))
        → Answered (alone ids rows now) d message usage client k answer
        → answer ≡ ok r
        → r.1 ≡ rows ++ new_row r.0 d (max_seq d rows + 1) message usage client now ∷ []
    go k answer (inserted _ after e) same =
        subst (λ x. x.1 ≡ rows ++ new_row x.0 d (max_seq d rows + 1) message usage client now ∷ [])
          (ap (pair_of r) same)
          (insert_shape (attempt_row (alone ids rows now) d message usage client k) rows after e).1
    go k answer (raised _ e last failed) same = absurd (ok≢err (sym same))
    go k answer (retried _ e _ more failed rest) same = go (k + 1) answer rest same
