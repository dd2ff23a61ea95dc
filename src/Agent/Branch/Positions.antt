-- ===== src/Agent/Branch/Positions.antt =====
-- Where the message that core/src/octoforge_core/agent/branch.py marks as the task stands.
use octo_forge.Base.{
  ℕ, suc, ◌+◌, Bool, true, false, ◌&&◌, not, Option, none, some, List, [], ◌∷◌, ◌++◌, String,
  opt_test, select_where, get_elem?, length, ◌≡◌, refl, ap, subst, inl, inr, Bool-cases, arith, All,
  if◌then◌else◌,
}
use octo_forge.Domain.{ChatMessage}
use octo_forge.Agent.Branch.{is_material, belongs, own_positions, first_or_last, task_index}

-- a message of the exchange that the user wrote, not forwarded
unfoldable pub asks : String → ChatMessage → Bool
asks e m = belongs e m && not (is_material m.kind)

-- The message between two parts of the narrative is the one to mark: the first that the user wrote to
-- the exchange or, when all they sent to it is forwarded, the last of these.
abbrev pub IsTask : String → List ChatMessage → ChatMessage → List ChatMessage → Type 0
IsTask e before m after =
    (belongs e m ≡ true)
    × (if is_material m.kind
        then All (λ x. asks e x ≡ false) before × All (λ x. belongs e x ≡ false) after
        else All (λ x. asks e x ≡ false) before)

-- the indices of what `asks`
spoken_positions : ℕ → String → List ChatMessage → List ℕ
spoken_positions i e [] = []
spoken_positions i e (m ∷ ms) =
    if asks e m then i ∷ spoken_positions (suc i) e ms else spoken_positions (suc i) e ms

select-spoken :
    (read : ℕ → Option ChatMessage) (i : ℕ) (e : String) (ms : List ChatMessage)
    → ((k : ℕ) → read (i + k) ≡ get_elem? ms k)
    → select_where (λ j. opt_test (λ m. not (is_material m.kind)) (read j)) (own_positions i e ms)
      ≡ spoken_positions i e ms
unfolding own_positions spoken_positions asks
select-spoken read i e [] h = refl
select-spoken read i e (m ∷ ms) h =
    let here : read i ≡ some m = subst (λ j. read j ≡ some m) (omega arith) (h 0) in
    let later : (k : ℕ) → read (suc i + k) ≡ get_elem? ms k =
      λ k. subst (λ j. read j ≡ get_elem? ms k) (omega arith) (h (suc k)) in
    ground (arith, here, select-spoken read (suc i) e ms later)

-- index `j`, counted from `i`, is that of a message, and it stands so in the narrative
abbrev pub Split :
    (List ChatMessage → ChatMessage → List ChatMessage → Type 0) → ℕ → ℕ → List ChatMessage → Type 0
Split P i j ms =
    (before : List ChatMessage) × (m : ChatMessage) × (after : List ChatMessage) × (ms
      ≡ before ++ m ∷ after)
    × (j ≡ i + length before)
    × P before m after

-- One more message in front.
Split-cons :
    (P Q : List ChatMessage → ChatMessage → List ChatMessage → Type 0) (i j : ℕ) (x : ChatMessage)
    (ms : List ChatMessage)
    → ((before : List ChatMessage) (m : ChatMessage) (after : List ChatMessage)
        → P before m after
        → Q (x ∷ before) m after)
    → Split P (suc i) j ms
    → Split Q i j (x ∷ ms)
Split-cons P Q i j x ms f s =
    (x ∷ s.0, s.1, s.2, ap (λ l. x ∷ l) s.3, omega (arith, s.4), f s.0 s.1 s.2 s.5)

none_spoken :
    (i : ℕ) (e : String) (ms : List ChatMessage)
    → spoken_positions i e ms ≡ []
    → All (λ x. asks e x ≡ false) ms
unfolding spoken_positions
none_spoken i e [] h = tt
none_spoken i e (m ∷ ms) h = elim (Bool-cases (asks e m)) [
  | inl p ↦ absurd (ground (arith, p, h))
  | inr p ↦ (p, none_spoken (suc i) e ms (ground (arith, p, h)))
]

none_own :
    (i : ℕ) (e : String) (ms : List ChatMessage)
    → own_positions i e ms ≡ []
    → All (λ x. belongs e x ≡ false) ms
unfolding own_positions
none_own i e [] h = tt
none_own i e (m ∷ ms) h = elim (Bool-cases (belongs e m)) [
  | inl p ↦ absurd (ground (arith, p, h))
  | inr p ↦ (p, none_own (suc i) e ms (ground (arith, p, h)))
]

first_spoken :
    (i : ℕ) (e : String) (ms : List ChatMessage) (j : ℕ) (rest : List ℕ)
    → spoken_positions i e ms ≡ j ∷ rest
    → Split (λ before m after. (asks e m ≡ true) × All (λ x. asks e x ≡ false) before) i j ms
unfolding spoken_positions
first_spoken i e [] j rest h = absurd (ground (arith, h))
first_spoken i e (m ∷ ms) j rest h = elim (Bool-cases (asks e m)) [
  | inl p ↦ ([], m, ms, refl, ground (arith, p, h), (p, tt))
  | inr p ↦
      Split-cons (λ before m after. (asks e m ≡ true) × All (λ x. asks e x ≡ false) before)
        (λ before m after. (asks e m ≡ true) × All (λ x. asks e x ≡ false) before) i j m ms
        (λ before x after q. (q.0, (p, q.1)))
        (first_spoken (suc i) e ms j rest (ground (arith, p, h)))
]

last_own :
    (i : ℕ) (e : String) (ms : List ChatMessage) (j : ℕ)
    → first_or_last [] (own_positions i e ms) ≡ some j
    → Split (λ before m after. (belongs e m ≡ true) × All (λ x. belongs e x ≡ false) after) i j ms
unfolding own_positions first_or_last
last_own i e [] j h = absurd (ground (arith, h))
last_own i e (m ∷ ms) j h =
    let later = λ (k : first_or_last [] (own_positions (suc i) e ms) ≡ some j).
      Split-cons (λ before m after. (belongs e m ≡ true) × All (λ x. belongs e x ≡ false) after)
        (λ before m after. (belongs e m ≡ true) × All (λ x. belongs e x ≡ false) after) i j m ms
        (λ before x after q. q) (last_own (suc i) e ms j k) in
    elim (Bool-cases (belongs e m)) [
      | inl p ↦ go p later (own_positions (suc i) e ms) refl
      | inr p ↦ later (ground (arith, p, h))
    ]
  where
    go :
        belongs e m ≡ true
        → (first_or_last [] (own_positions (suc i) e ms) ≡ some j
            → Split
                (λ before m after. (belongs e m ≡ true) × All (λ x. belongs e x ≡ false) after)
                i
                j
                (m ∷ ms))
        → (positions : List ℕ) → own_positions (suc i) e ms ≡ positions
        → Split
            (λ before m after. (belongs e m ≡ true) × All (λ x. belongs e x ≡ false) after)
            i
            j
            (m ∷ ms)
    go p later [] none_left =
        ([], m, ms, refl, ground (arith, p, none_left, h), (p, none_own (suc i) e ms none_left))
    go p later (k ∷ ks) more = later (ground (arith, p, more, h))

All-parts :
    (P : ChatMessage → Type 0) (before : List ChatMessage) (m : ChatMessage)
    (after : List ChatMessage)
    → All P (before ++ m ∷ after)
    → All P before × P m
All-parts P [] m after h = (tt, h.0)
All-parts P (x ∷ before) m after h =
    let rest = All-parts P before m after h.1 in ((h.0, rest.0), rest.1)

asks_marked :
    (e : String) (before : List ChatMessage) (m : ChatMessage) (after : List ChatMessage)
    → asks e m ≡ true
    → All (λ x. asks e x ≡ false) before
    → IsTask e before m after
unfolding asks
asks_marked e before m after h k = elim (Bool-cases (is_material m.kind)) [
  | inl p ↦ absurd (ground (arith, p, h))
  | inr p ↦ rw p (ground (arith, p, h), k)
]

forwarded_marked :
    (e : String) (before : List ChatMessage) (m : ChatMessage) (after : List ChatMessage)
    → belongs e m ≡ true
    → asks e m ≡ false
    → All (λ x. asks e x ≡ false) before
    → All (λ x. belongs e x ≡ false) after
    → IsTask e before m after
unfolding asks
forwarded_marked e before m after b h k l = elim (Bool-cases (is_material m.kind)) [
  | inl p ↦ rw p (b, (k, l))
  | inr p ↦ absurd (ground (arith, p, h, b))
]

-- The chosen index is that of the message to mark.
pub task_index-IsTask :
    (ms : List ChatMessage) (e : String) (j : ℕ)
    → task_index ms (some e) ≡ some j
    → Split (IsTask e) 0 j ms
unfolding task_index first_or_last
task_index-IsTask ms e j h = go (spoken_positions 0 e ms) refl
  where
    chosen : first_or_last (spoken_positions 0 e ms) (own_positions 0 e ms) ≡ some j
    chosen =
        subst (λ l. first_or_last l (own_positions 0 e ms) ≡ some j)
          (select-spoken (get_elem? ms) 0 e ms (λ k. ap (get_elem? ms) (omega arith))) h

    go : (spoken : List ℕ) → spoken_positions 0 e ms ≡ spoken → Split (IsTask e) 0 j ms
    go (k ∷ ks) eq =
        let s = first_spoken 0 e ms j ks (ground (arith, eq, chosen)) in
        (s.0, s.1, s.2, s.3, s.4, asks_marked e s.0 s.1 s.2 s.5.0 s.5.1)
    go [] eq =
        let s =
          last_own 0 e ms j
            (subst (λ l. first_or_last l (own_positions 0 e ms) ≡ some j) eq chosen) in
        let unspoken =
          All-parts (λ x. asks e x ≡ false) s.0 s.1 s.2
            (subst (All (λ x. asks e x ≡ false)) s.3 (none_spoken 0 e ms eq)) in
        (s.0, s.1, s.2, s.3, s.4, forwarded_marked e s.0 s.1 s.2 s.5.0 unspoken.1 unspoken.0 s.5.1)

first_or_last-none :
    (spoken positions : List ℕ) → first_or_last spoken positions ≡ none → positions ≡ []
unfolding first_or_last
first_or_last-none (i ∷ spoken) positions h = absurd (ground (arith, h))
first_or_last-none [] [] h = refl
first_or_last-none [] (i ∷ []) h = absurd (ground (arith, h))
first_or_last-none [] (i ∷ j ∷ positions) h =
    absurd (ground (arith, first_or_last-none [] (j ∷ positions) h))

-- Without one, nothing of the narrative was sent to the exchange.
pub task_index-none :
    (ms : List ChatMessage) (e : String)
    → task_index ms (some e) ≡ none
    → All (λ x. belongs e x ≡ false) ms
unfolding task_index
task_index-none ms e h = none_own 0 e ms (first_or_last-none _ (own_positions 0 e ms) h)
