-- ===== src/Context/Sizes.antt =====
-- How much `select_compact_segment` of core/src/octoforge_core/context/compactor.py takes.
use octo_forge.Base.{
  ℕ, ◌+◌, ◌≤◌, max, true, not, Option, none, some, List, [], ◌∷◌, ◌++◌, ◌&&◌, eq_iff, str_length,
  ◌==◌, ltb, length, get_elem?, ◌≡◌, ap, arith, Bool-cases, inl, inr, length-append,
}
use octo_forge.Context.Store.{ArchivedMessage}
use octo_forge.Context.Cuts.{length-but_last}
use octo_forge.Context.Segment.{
  interrupted_note, but_last, last_of, is_empty, both_pair, cut_splits, collect, extended, repaired,
  select_compact_segment,
}

abbrev pub total_chars : List ArchivedMessage → ℕ
total_chars [] = 0
total_chars (m ∷ ms) = str_length m.content + total_chars ms

total_chars-append :
    (xs ys : List ArchivedMessage) → total_chars (xs ++ ys) ≡ total_chars xs + total_chars ys
total_chars-append [] ys = omega arith
total_chars-append (x ∷ xs) ys = omega (arith, total_chars-append xs ys)

abbrev first_chars : List ArchivedMessage → ℕ
first_chars [] = 0
first_chars (m ∷ ms) = str_length m.content

-- the loop with messages taken already
collect_within :
    (target : ℕ) (s : ArchivedMessage) (segment : List ArchivedMessage) (total : ℕ)
    (xs : List ArchivedMessage)
    → total_chars (s ∷ segment) ≡ total
    → total_chars (collect target (s ∷ segment) total xs) ≤ max target total
unfolding collect
collect_within target s segment total [] h = omega (arith, h)
collect_within target s segment total (m ∷ rest) h =
    let more =
      collect_within target s (segment ++ m ∷ []) (total + str_length m.content) rest
        (omega (arith, h, total_chars-append segment (m ∷ []))) in
    elim (Bool-cases (ltb target (total + str_length m.content))) [
      | inl full ↦ rw full (omega (arith, h))
      | inr on ↦ rw on (ground (arith, more))
    ]

collect_bounds :
    (target : ℕ) (xs : List ArchivedMessage)
    → total_chars (collect target [] 0 xs) ≤ max target (first_chars xs)
unfolding collect
collect_bounds target [] = omega arith
collect_bounds target (m ∷ rest) =
    omega (arith, collect_within target m [] (0 + str_length m.content) rest (omega arith))

first_chars-but_last : (xs : List ArchivedMessage) → first_chars (but_last xs) ≤ first_chars xs
first_chars-but_last [] = omega arith
first_chars-but_last (x ∷ []) = omega arith
first_chars-but_last (x ∷ (y ∷ xs)) = omega arith

total_chars-but_last : (xs : List ArchivedMessage) → total_chars (but_last xs) ≤ total_chars xs
total_chars-but_last [] = omega arith
total_chars-but_last (x ∷ []) = omega arith
total_chars-but_last (x ∷ (y ∷ xs)) = omega (arith, total_chars-but_last (y ∷ xs))

-- The message that a split pair brings in is the note.
extended_chars :
    (segment : List ArchivedMessage) (a b : Option ArchivedMessage)
    → both_pair a b ≡ true
    → total_chars (extended segment b) ≤ total_chars segment + str_length interrupted_note
extended_chars segment none b h = absurd (ground (arith, h))
extended_chars segment (some a) none h = absurd (ground (arith, h))
extended_chars segment (some a) (some b) h =
    let same : b.content ≡ interrupted_note =
      (eq_iff b.content interrupted_note).0 (ground (arith, h)) in
    omega (arith, total_chars-append segment (b ∷ []), ap str_length same)

-- A compaction takes at most the configured number of characters, or the whole first message where
-- that one is longer, and at most the note of an interrupted pair beyond that.
pub select_bounds :
    (tail : List ArchivedMessage) (target : ℕ)
    → total_chars (select_compact_segment tail target)
      ≤ max target (first_chars tail) + str_length interrupted_note
unfolding select_compact_segment
select_bounds tail target =
    go (collect target [] 0 (but_last tail))
      (omega (arith, collect_bounds target (but_last tail), first_chars-but_last tail))
  where
    go :
        (segment : List ArchivedMessage)
        → total_chars segment ≤ max target (first_chars tail)
        → total_chars (repaired segment tail)
          ≤ max target (first_chars tail) + str_length interrupted_note
    go segment le = elim (Bool-cases (cut_splits segment tail)) [
      | inr whole ↦ rw whole (omega (arith, le))
      | inl split ↦ elim (Bool-cases (length segment + 1 == length tail)) [
        | inl last ↦ rw split rw last (omega (arith, le, total_chars-but_last segment))
        | inr more ↦ rw split rw more (
            omega (
              arith,
              le,
              extended_chars segment (last_of segment) (get_elem? tail (length segment)) split,
            ))
      ]
    ]

collect_grows :
    (target : ℕ) (segment : List ArchivedMessage) (total : ℕ) (xs : List ArchivedMessage)
    → length segment ≤ length (collect target segment total xs)
unfolding collect
collect_grows target segment total [] = omega arith
collect_grows target segment total (m ∷ rest) =
    elim (Bool-cases (not (is_empty segment) && ltb target (total + str_length m.content))) [
      | inl full ↦ rw full (omega arith)
      | inr on ↦ rw on (
          omega (
            arith,
            collect_grows target (segment ++ m ∷ []) (total + str_length m.content) rest,
            length-append segment (m ∷ []),
          ))
    ]

collect_takes :
    (target : ℕ) (xs : List ArchivedMessage) → 1 ≤ length xs → 1 ≤ length (collect target [] 0 xs)
unfolding collect
collect_takes target [] h = absurd (omega arith)
collect_takes target (m ∷ rest) h =
    omega (arith, collect_grows target (m ∷ []) (0 + str_length m.content) rest)

extended_grows :
    (segment : List ArchivedMessage) (b : Option ArchivedMessage)
    → length segment ≤ length (extended segment b)
extended_grows segment none = omega arith
extended_grows segment (some b) = omega (arith, length-append segment (b ∷ []))

-- From a tail of three messages or more a compaction takes at least one, so that a long tail is always
-- shortened.
pub select_takes :
    (tail : List ArchivedMessage) (target : ℕ)
    → 3 ≤ length tail
    → 1 ≤ length (select_compact_segment tail target)
unfolding select_compact_segment
select_takes tail target long =
    go (collect target [] 0 (but_last tail))
      (collect_takes target (but_last tail) (omega (arith, length-but_last tail)))
  where
    go : (segment : List ArchivedMessage) → 1 ≤ length segment → 1 ≤ length (repaired segment tail)
    go segment le = elim (Bool-cases (cut_splits segment tail)) [
      | inr whole ↦ rw whole le
      | inl split ↦ elim (Bool-cases (length segment + 1 == length tail)) [
        | inl last ↦ rw split (rw last (ground (arith, length-but_last segment)))
        | inr more ↦
            rw split
              (rw more (omega (arith, extended_grows segment (get_elem? tail (length segment)))))
      ]
    ]
