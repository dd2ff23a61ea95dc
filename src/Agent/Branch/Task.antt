-- ===== src/Agent/Branch/Task.antt =====
-- Which message core/src/octoforge_core/agent/branch.py marks as the task of a run.
use octo_forge.Base.{
  ◌≢◌, eq_iff, ℕ, suc, ◌+◌, ◌≤◌, ◌<◌, true, false, Option, none, some, List, [], ◌∷◌, ◌++◌, String,
  str_append, length, if◌then◌else◌, ◌≡◌, refl, ap, ◌∙◌, sym, subst, inl, inr, Option-cases, All,
  arith, ◌⊎◌,
}
use octo_forge.Domain.{ChatMessage}
use octo_forge.Agent.Branch.{
  is_material, task_note, material_task_note, belongs, own_mark, render_from, task_index,
  render_branch,
}
use octo_forge.Agent.Branch.Positions.{IsTask, Split, task_index-IsTask, task_index-none}

-- the branch in which nothing is marked as the task
abbrev pub untasked : String → List String → List ChatMessage → List ChatMessage
untasked e live ms = render_from 0 none (some e) live ms

-- the message marked as the task
abbrev pub as_task : ChatMessage → ChatMessage
as_task m = record m {
  content = str_append (if is_material m.kind then material_task_note else task_note) m.content;
}

render_from-append :
    (i : ℕ) (task : Option ℕ) (own : Option String) (live : List String) (xs ys : List ChatMessage)
    → render_from i task own live (xs ++ ys)
      ≡ render_from i task own live xs ++ render_from (i + length xs) task own live ys
unfolding render_from
render_from-append i task own live [] ys = ap (λ k. render_from k task own live ys) (omega arith)
render_from-append i task own live (x ∷ xs) ys =
    let ih : render_from (suc i) task own live (xs ++ ys)
        ≡ render_from (suc i) task own live xs
          ++ render_from (i + suc (length xs)) task own live ys =
      subst
        (λ k.
          render_from (suc i) task own live (xs ++ ys)
          ≡ render_from (suc i) task own live xs ++ render_from k task own live ys)
        (omega arith) (render_from-append (suc i) task own live xs ys) in
    ground (arith, ih)

own_mark-away : (m : ChatMessage) (i k t : ℕ) → i ≢ t → own_mark m i (some t) ≡ own_mark m k none
unfolding own_mark
own_mark-away m i k t ne = ground arith

-- A position that is not among the messages marks none.
render_from-before :
    (i k t : ℕ) (own : Option String) (live : List String) (ms : List ChatMessage)
    → i + length ms ≤ t
    → render_from i (some t) own live ms ≡ render_from k none own live ms
unfolding render_from
render_from-before i k t own live [] h = refl
render_from-before i k t own live (m ∷ ms) h = ground (
  arith,
  own_mark-away m i k t (omega arith),
  render_from-before (suc i) (suc k) t own live ms (omega arith),
)

render_from-after :
    (i k t : ℕ) (own : Option String) (live : List String) (ms : List ChatMessage)
    → t < i
    → render_from i (some t) own live ms ≡ render_from k none own live ms
unfolding render_from
render_from-after i k t own live [] h = refl
render_from-after i k t own live (m ∷ ms) h = ground (
  arith,
  own_mark-away m i k t (omega arith),
  render_from-after (suc i) (suc k) t own live ms (omega arith),
)

render_from-task :
    (i : ℕ) (e : String) (live : List String) (m : ChatMessage) (ms : List ChatMessage)
    → belongs e m ≡ true
    → render_from i (some i) (some e) live (m ∷ ms) ≡ as_task m ∷ untasked e live ms
unfolding render_from own_mark belongs
render_from-task i e live m ms h = elim (Option-cases m.exchange_id) [
  | inl q ↦ absurd (ground (arith, q, h))
  | inr (x, q) ↦ ground (
    arith,
    q,
    h,
    eq_iff e x,
    eq_iff x e,
    render_from-after (suc i) 0 i (some e) live ms (omega arith),
  )
]

marked_at :
    (ms : List ChatMessage) (e : String) (live : List String) (j : ℕ)
    → Split (IsTask e) 0 j ms
    → (before : List ChatMessage) × (m : ChatMessage) × (after : List ChatMessage) × (ms
        ≡ before ++ m ∷ after)
      × IsTask e before m after
      × (render_from 0 (some j) (some e) live ms
          ≡ untasked e live before ++ as_task m ∷ untasked e live after)
marked_at ms e live j (before, m, after, parts, here, task) =
    let front : render_from 0 (some j) (some e) live before ≡ untasked e live before =
      render_from-before 0 0 j (some e) live before (omega arith) in
    let behind : render_from (0 + length before) (some (0 + length before)) (some e) live
          (m ∷ after)
        ≡ as_task m ∷ untasked e live after =
      render_from-task (0 + length before) e live m after task.0 in
    (
      before,
      m,
      after,
      parts,
      task,
      ap (render_from 0 (some j) (some e) live) parts
          ∙ render_from-append 0 (some j) (some e) live before (m ∷ after)
          ∙ subst
              (λ k.
                render_from 0 (some j) (some e) live before
                  ++ render_from (0 + length before) (some k) (some e) live (m ∷ after)
                ≡ untasked e live before ++ as_task m ∷ untasked e live after)
              (sym here) (rw behind (ap (λ l. l ++ as_task m ∷ untasked e live after) front)),
    )

-- Of the messages of a run's own exchange, exactly one is marked as its task: the first that the user
-- wrote to it or, when all that they sent to it is forwarded material, the last piece. The others are
-- rendered as in a branch without a task, and when the user sent nothing to the exchange all are.
pub one_marked :
    (ms : List ChatMessage) (e : String) (live : List String)
    → ((before : List ChatMessage) × (m : ChatMessage) × (after : List ChatMessage) × (ms
          ≡ before ++ m ∷ after)
        × IsTask e before m after
        × (render_branch ms (some e) live
            ≡ untasked e live before ++ as_task m ∷ untasked e live after))
      ⊎ (All (λ m. belongs e m ≡ false) ms × (render_branch ms (some e) live ≡ untasked e live ms))
unfolding render_branch
one_marked ms e live = elim (Option-cases (task_index ms (some e))) [
  | inl h ↦ inr (task_index-none ms e h, rw h)
  | inr (j, h) ↦ inl (rw h (marked_at ms e live j (task_index-IsTask ms e j h)))
]
