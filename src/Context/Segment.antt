-- ===== src/Context/Segment.antt =====
-- Which messages a compaction takes: `select_compact_segment` of
-- core/src/octoforge_core/context/compactor.py.
use octo_forge.Base.{
  ℕ, ◌+◌, String, Bool, true, false, not, Option, none, some, List, [], ◌∷◌, ◌++◌, ◌&&◌, str_eq,
  str_length, if◌then◌else◌, ◌==◌, ltb, length, get_elem?,
}
use octo_forge.Domain.{MessageRole, system, assistant}
use octo_forge.Context.Store.{ArchivedMessage}

abbrev pub interrupted_note : String
interrupted_note = "[The previous assistant message was interrupted and may be incomplete.]"

-- `xs[:-1]`
abbrev pub but_last {ℓ} : {A : Type ℓ} → List A → List A
but_last [] = []
but_last (x ∷ []) = []
but_last (x ∷ (y ∷ xs)) = x ∷ but_last (y ∷ xs)

-- `xs[-1]`, when there is one
abbrev pub last_of {ℓ} : {A : Type ℓ} → List A → Option A
last_of [] = none
last_of (x ∷ []) = some x
last_of (x ∷ (y ∷ xs)) = last_of (y ∷ xs)

abbrev pub is_empty {ℓ} : {A : Type ℓ} → List A → Bool
is_empty [] = true
is_empty (x ∷ xs) = false

abbrev pub is_assistant : MessageRole → Bool
is_assistant r = elim r [ assistant ↦ true | _ ↦ false ]

abbrev pub is_system : MessageRole → Bool
is_system r = elim r [ system ↦ true | _ ↦ false ]

abbrev pub is_split_pair : ArchivedMessage → ArchivedMessage → Bool
is_split_pair last_in first_out =
    is_assistant last_in.role
    && (is_system first_out.role && str_eq first_out.content interrupted_note)

-- `segment and len(tail) > len(segment) and _is_split_pair(segment[-1], tail[len(segment)])`
abbrev pub both_pair : Option ArchivedMessage → Option ArchivedMessage → Bool
both_pair (some a) (some b) = is_split_pair a b
both_pair _ _ = false

abbrev pub cut_splits : List ArchivedMessage → List ArchivedMessage → Bool
cut_splits segment tail = both_pair (last_of segment) (get_elem? tail (length segment))

-- the loop over `tail[:-1]`
unfoldable pub collect : ℕ → List ArchivedMessage → ℕ → List ArchivedMessage → List ArchivedMessage
collect target segment total [] = segment
collect target segment total (m ∷ rest) =
    let more = collect target (segment ++ m ∷ []) (total + str_length m.content) rest in
    if not (is_empty segment) && ltb target (total + str_length m.content) then segment else more

-- `segment.append(tail[len(segment)])`
abbrev pub extended : List ArchivedMessage → Option ArchivedMessage → List ArchivedMessage
extended segment (some m) = segment ++ m ∷ []
extended segment none = segment

-- what is done about a cut between the two messages of a pair
abbrev pub repaired : List ArchivedMessage → List ArchivedMessage → List ArchivedMessage
repaired segment tail =
    if cut_splits segment tail
    then if length segment + 1 == length tail
      then but_last segment
      else extended segment (get_elem? tail (length segment))
    else segment

unfoldable pub select_compact_segment : List ArchivedMessage → ℕ → List ArchivedMessage
select_compact_segment tail target = repaired (collect target [] 0 (but_last tail)) tail
