-- ===== src/Context/Cuts.antt =====
-- Where `select_compact_segment` of core/src/octoforge_core/context/compactor.py cuts the tail.
use mathlib.Core.List.{append-nil, append_assoc}
use octo_forge.Base.{
  ℕ, zero, suc, ◌+◌, ◌-◌, ◌≤◌, ◌<◌, Bool, true, false, not, Option, none, some, List, [], ◌∷◌, ◌++◌,
  ◌&&◌, str_eq, str_length, if◌then◌else◌, ◌==◌, ltb, length, take, get_elem?, ◌≡◌, ◌≢◌, refl, sym,
  ap, ◌∙◌, arith, Bool-cases, inl, inr,
}
use octo_forge.Domain.{MessageRole, system, user, assistant, tool}
use octo_forge.Context.Store.{ArchivedMessage}
use octo_forge.Context.Segment.{
  interrupted_note, but_last, last_of, is_empty, is_assistant, is_system, both_pair, cut_splits,
  collect, extended, repaired, select_compact_segment,
}

module _ {ℓ} {A : Type ℓ} where
  pub length-but_last : (xs : List A) → length (but_last xs) ≡ length xs - 1
  length-but_last [] = omega arith
  length-but_last (x ∷ []) = omega arith
  length-but_last (x ∷ (y ∷ xs)) = omega (arith, length-but_last (y ∷ xs))

  take-but_last : (k : ℕ) (xs : List A) → k ≤ length xs - 1 → take k (but_last xs) ≡ take k xs
  take-but_last zero xs le = refl
  take-but_last (suc k) [] le = refl
  take-but_last (suc k) (x ∷ []) le = absurd (omega arith)
  take-but_last (suc k) (x ∷ (y ∷ xs)) le = ap (λ l. x ∷ l) (take-but_last k (y ∷ xs) (omega arith))

  pub last_of-take :
      (j : ℕ) (xs : List A) → j < length xs → last_of (take (suc j) xs) ≡ get_elem? xs j
  last_of-take j [] lt = absurd (omega arith)
  last_of-take zero (x ∷ xs) lt = refl
  last_of-take (suc j) (x ∷ []) lt = absurd (omega arith)
  last_of-take (suc j) (x ∷ (y ∷ xs)) lt = last_of-take j (y ∷ xs) (omega arith)

  but_last-take : (j : ℕ) (xs : List A) → j < length xs → but_last (take (suc j) xs) ≡ take j xs
  but_last-take j [] lt = absurd (omega arith)
  but_last-take zero (x ∷ xs) lt = refl
  but_last-take (suc j) (x ∷ []) lt = absurd (omega arith)
  but_last-take (suc j) (x ∷ (y ∷ xs)) lt = ap (λ l. x ∷ l) (but_last-take j (y ∷ xs) (omega arith))

  take-next :
      (k : ℕ) (xs : List A) (m : A)
      → get_elem? xs k ≡ some m
      → take k xs ++ m ∷ [] ≡ take (suc k) xs
  take-next k [] m e = ground arith
  take-next zero (x ∷ xs) m e = ground arith
  take-next (suc k) (x ∷ xs) m e = ap (λ l. x ∷ l) (take-next k xs m e)

  pub length-take_within : (k : ℕ) (xs : List A) → k ≤ length xs → length (take k xs) ≡ k
  length-take_within zero xs le = refl
  length-take_within (suc k) [] le = absurd (omega arith)
  length-take_within (suc k) (x ∷ xs) le = ap suc (length-take_within k xs (omega arith))

collect-take :
    (target : ℕ) (segment : List ArchivedMessage) (total : ℕ) (xs : List ArchivedMessage)
    → (k : ℕ) × (k ≤ length xs) × (collect target segment total xs ≡ segment ++ take k xs)
unfolding collect
collect-take target segment total [] = (0, omega arith, sym (append-nil segment))
collect-take target segment total (m ∷ rest) =
    let more = collect-take target (segment ++ m ∷ []) (total + str_length m.content) rest in
    elim (Bool-cases (not (is_empty segment) && ltb target (total + str_length m.content))) [
      | inl full ↦ (0, omega arith, rw full (sym (append-nil segment)))
      | inr on ↦ (
        suc more.0,
        omega (arith, more.1),
        rw on (more.2 ∙ append_assoc segment (m ∷ []) (take more.0 rest)),
      )
    ]

-- Before place `k` a pair is split.
abbrev splits_at : List ArchivedMessage → ℕ → Bool
splits_at tail k = both_pair (last_of (take k tail)) (get_elem? tail k)

cut_splits-take :
    (tail : List ArchivedMessage) (k : ℕ)
    → k ≤ length tail
    → cut_splits (take k tail) tail ≡ splits_at tail k
cut_splits-take tail k le = rw (length-take_within k tail le) refl

roles_exclude :
    (r : MessageRole) (a p q : Bool)
    → (a && (is_system r && p)) ≡ true
    → (is_assistant r && q) ≡ false
roles_exclude system a p q h = refl
roles_exclude user a p q h = refl
roles_exclude tool a p q h = refl
roles_exclude assistant a p q h = ground (arith, h)

-- A message cannot end one pair and begin another.
pairs_apart : (x y z : Option ArchivedMessage) → both_pair x y ≡ true → both_pair y z ≡ false
pairs_apart none y z h = absurd (ground (arith, h))
pairs_apart (some a) none z h = refl
pairs_apart (some a) (some b) none h = refl
pairs_apart (some a) (some b) (some c) h =
    roles_exclude b.role (is_assistant a.role) (str_eq b.content interrupted_note)
      (is_system c.role && str_eq c.content interrupted_note) h

both_values : true ≢ false
both_values h = ground (arith, h)

before_pair : (x y z : Option ArchivedMessage) → both_pair y z ≡ true → both_pair x y ≡ false
before_pair x y z h = elim (Bool-cases (both_pair x y)) [
  | inl pair ↦ absurd (both_values (sym h ∙ pairs_apart x y z pair))
  | inr apart ↦ apart
]

pair_needs : (x y : Option ArchivedMessage) → y ≡ none → both_pair x y ≡ false
pair_needs none y e = refl
pair_needs (some a) none e = refl
pair_needs (some a) (some b) e = absurd (ground (arith, e))

pair_here :
    (tail : List ArchivedMessage) (j : ℕ)
    → suc j < length tail
    → splits_at tail (suc j) ≡ true
    → both_pair (get_elem? tail j) (get_elem? tail (suc j)) ≡ true
pair_here tail j lt split =
    ap (λ o. both_pair o (get_elem? tail (suc j))) (sym (last_of-take j tail (omega (arith, lt))))
    ∙ split

-- A proper prefix of the tail that ends between two messages that are no pair.
pub record IsCut (tail segment : List ArchivedMessage) : Type 0 where
  pub place : ℕ
  pub within : place < length tail
  pub prefix : segment ≡ take place tail
  pub unsplit : cut_splits segment tail ≡ false

IsCut-at :
    (tail : List ArchivedMessage) (k : ℕ)
    → k < length tail
    → splits_at tail k ≡ false
    → IsCut tail (take k tail)
IsCut-at tail k lt un = record {
  place = k;
  within = lt;
  prefix = refl;
  unsplit = cut_splits-take tail k (omega arith) ∙ un;
}

-- what is done about a split pair
repaired-IsCut :
    (tail : List ArchivedMessage) (k : ℕ) (m : Option ArchivedMessage)
    → k < length tail
    → get_elem? tail k ≡ m
    → splits_at tail k ≡ true
    → IsCut tail (if k + 1 == length tail then but_last (take k tail) else extended (take k tail) m)
repaired-IsCut tail zero m lt here split = absurd (ground (arith, split))
repaired-IsCut tail (suc j) none lt here split =
    absurd (both_values (sym split ∙ pair_needs (last_of (take (suc j) tail)) _ here))
repaired-IsCut tail (suc j) (some m) lt here split = elim (Bool-cases (suc j + 1 == length tail)) [
  | inl last ↦ rw last (
      rw (but_last-take j tail (omega (arith, lt))) (
        IsCut-at tail j (omega (arith, lt)) (
          before_pair (last_of (take j tail)) (get_elem? tail j) (get_elem? tail (suc j))
            (pair_here tail j lt split))))
  | inr more ↦ rw more (
      rw (take-next (suc j) tail m here) (
        IsCut-at tail (suc (suc j)) (ground (arith, lt)) (
          ap (λ o. both_pair o (get_elem? tail (suc (suc j)))) (last_of-take (suc j) tail lt)
          ∙ pairs_apart (get_elem? tail j) (get_elem? tail (suc j)) (get_elem? tail (suc (suc j)))
              (pair_here tail j lt split))))
]

-- A compaction takes a proper prefix of a tail, so never its last message, and never one message of an
-- interrupted pair without the other.
pub select-IsCut :
    (tail : List ArchivedMessage) (target : ℕ)
    → 0 < length tail
    → IsCut tail (select_compact_segment tail target)
unfolding select_compact_segment
select-IsCut tail target some_ =
    let c = collect-take target [] 0 (but_last tail) in
    let short : c.0 ≤ length tail - 1 = omega (arith, c.1, length-but_last tail) in
    rw (c.2 ∙ take-but_last c.0 tail short) (go c.0 (omega (arith, short)))
  where
    go : (k : ℕ) → k < length tail → IsCut tail (repaired (take k tail) tail)
    go k lt = elim (Bool-cases (splits_at tail k)) [
      | inl split ↦
          rw (length-take_within k tail (omega (arith, lt))) rw split
            (repaired-IsCut tail k (get_elem? tail k) lt refl split)
      | inr whole ↦
          rw (length-take_within k tail (omega (arith, lt))) rw whole (IsCut-at tail k lt whole)
    ]
