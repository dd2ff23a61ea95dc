-- ===== src/Agent/Preview.antt =====
-- The digest of forwarded material in core/src/octoforge_core/agent/runner.py: `_bounded_preview` and
-- `_middle_out`.
use native.Mathlib.Nat.{mul-div-le, le-div_iff_mul-le}
use octo_forge.Base.{
  ℕ, zero, suc, ◌+◌, ◌-◌, ◌*◌, ◌/◌, ◌≤◌, ◌<◌, max, String, List, [], ◌∷◌, leb, if◌then◌else◌,
  length, str_take, str_length, str_append, All, ◌≡◌, refl, sym, ap, ◌∙◌, subst, arith, leb→le,
  Bool-cases, inl, inr,
}

-- `MATERIAL_DIGEST_ELLIPSIS`
abbrev pub ellipsis : String
ellipsis = "\n[…]\n"

-- `s[n:]`
unfoldable pub str_drop : ℕ → String → String
str_drop zero s = s
str_drop (suc n) String.[] = ""
str_drop (suc n) (String.◌∷◌ c s) = str_drop n s

-- `_middle_out`, for a limit that is not below the length of the ellipsis
unfoldable pub middle_out : ℕ → String → String
middle_out limit text =
    let keep = limit - str_length ellipsis in
    let head = keep / 2 in
    if leb (str_length text) limit
    then text
    else str_append (str_take head text)
        (str_append ellipsis (str_drop (str_length text - (keep - head)) text))

-- `"\n".join(…)`
unfoldable pub join_lines : List String → String
join_lines [] = ""
join_lines (line ∷ []) = line
join_lines (line ∷ next ∷ lines) = str_append line (str_append "\n" (join_lines (next ∷ lines)))

-- `share` of `_bounded_preview`
unfoldable pub share_of : ℕ → ℕ → ℕ
share_of pieces budget = max (budget / pieces) (str_length ellipsis + 2)

unfoldable pub cut_pieces : ℕ → List String → List String
unfolding middle_out
cut_pieces share [] = []
cut_pieces share (piece ∷ pieces) = middle_out share piece ∷ cut_pieces share pieces

-- `_bounded_preview`
unfoldable pub bounded_preview : List String → ℕ → String
unfolding cut_pieces join_lines share_of
bounded_preview [] budget = ""
bounded_preview (piece ∷ pieces) budget =
    join_lines (cut_pieces (share_of (length (piece ∷ pieces)) budget) (piece ∷ pieces))

str_length-append : (s t : String) → str_length (str_append s t) ≡ str_length s + str_length t
unfolding str_append str_length
str_length-append String.[] t = omega arith
str_length-append (String.◌∷◌ c s) t = omega (arith, str_length-append s t)

str_length-take_within : (n : ℕ) (s : String) → n ≤ str_length s → str_length (str_take n s) ≡ n
unfolding str_take str_length
str_length-take_within zero s h = refl
str_length-take_within (suc n) String.[] h = absurd (omega arith)
str_length-take_within (suc n) (String.◌∷◌ c s) h =
    omega (arith, str_length-take_within n s (omega arith))

str_length-drop : (n : ℕ) (s : String) → str_length (str_drop n s) ≡ str_length s - n
unfolding str_drop str_length
str_length-drop zero s = omega arith
str_length-drop (suc n) String.[] = omega arith
str_length-drop (suc n) (String.◌∷◌ c s) = omega (arith, str_length-drop n s)

pub ellipsis_length : str_length ellipsis ≡ 5
unfolding str_length
ellipsis_length = refl

-- A text over the limit is cut to exactly the limit.
length-middle_out :
    (limit : ℕ) (text : String)
    → 5 ≤ limit
    → limit < str_length text
    → str_length (middle_out limit text) ≡ limit
unfolding middle_out
length-middle_out limit text le lt = elim (Bool-cases (leb (str_length text) limit)) [
  | inl e ↦ absurd (omega (arith, leb→le _ _ e))
  | inr e ↦
      let keep = limit - str_length ellipsis in
      let head = keep / 2 in
      let back = str_length text - (keep - head) in
      let front : str_length (str_take head text) ≡ head =
        str_length-take_within head text (omega (arith, ellipsis_length)) in
      let sum : str_length
            (str_append (str_take head text) (str_append ellipsis (str_drop back text)))
          ≡ str_length (str_take head text)
            + (str_length ellipsis + str_length (str_drop back text)) =
        str_length-append (str_take head text) (str_append ellipsis (str_drop back text))
        ∙ ap (λ n. str_length (str_take head text) + n)
            (str_length-append ellipsis (str_drop back text)) in
      rw e (omega (arith, sum, front, str_length-drop back text, ellipsis_length))
]

middle_out_bounded :
    (limit : ℕ) (text : String) → 5 ≤ limit → str_length (middle_out limit text) ≤ limit
unfolding middle_out
middle_out_bounded limit text le = elim (Bool-cases (leb (str_length text) limit)) [
  | inl e ↦ rw e (leb→le _ _ e)
  | inr e ↦ omega (arith, length-middle_out limit text le (ground (arith, e)))
]

share_fits : (pieces budget : ℕ) → 5 ≤ share_of pieces budget
unfolding share_of
share_fits pieces budget = omega (arith, ellipsis_length)

newline_length : str_length "\n" ≡ 1
unfolding str_length
newline_length = refl

join_bounded :
    (share : ℕ) (piece : String) (pieces : List String)
    → 5 ≤ share
    → str_length (join_lines (cut_pieces share (piece ∷ pieces)))
      ≤ (length pieces + 1) * share + length pieces
unfolding join_lines cut_pieces
join_bounded share piece [] le = omega (arith, middle_out_bounded share piece le)
join_bounded share piece (next ∷ pieces) le =
    let rest = join_lines (cut_pieces share (next ∷ pieces)) in
    let size : str_length (str_append (middle_out share piece) (str_append "\n" rest))
        ≡ str_length (middle_out share piece) + (str_length "\n" + str_length rest) =
      str_length-append (middle_out share piece) (str_append "\n" rest)
      ∙ ap (λ n. str_length (middle_out share piece) + n) (str_length-append "\n" rest) in
    grind (
      arith,
      size,
      newline_length,
      middle_out_bounded share piece le,
      join_bounded share next pieces le,
    )

join_exact :
    (share : ℕ) (piece : String) (pieces : List String)
    → 5 ≤ share
    → All (λ p. share < str_length p) (piece ∷ pieces)
    → str_length (join_lines (cut_pieces share (piece ∷ pieces)))
      ≡ (length pieces + 1) * share + length pieces
unfolding join_lines cut_pieces
join_exact share piece [] le h = omega (arith, length-middle_out share piece le h.0)
join_exact share piece (next ∷ pieces) le h =
    let rest = join_lines (cut_pieces share (next ∷ pieces)) in
    let size : str_length (str_append (middle_out share piece) (str_append "\n" rest))
        ≡ str_length (middle_out share piece) + (str_length "\n" + str_length rest) =
      str_length-append (middle_out share piece) (str_append "\n" rest)
      ∙ ap (λ n. str_length (middle_out share piece) + n) (str_length-append "\n" rest) in
    grind (
      arith,
      size,
      newline_length,
      length-middle_out share piece le h.0,
      join_exact share next pieces le h.1,
    )

share_of-even :
    (pieces budget : ℕ)
    → 1 ≤ pieces
    → pieces * 7 ≤ budget
    → share_of pieces budget ≡ budget / pieces
unfolding share_of
share_of-even pieces budget one enough =
    let fits : 7 ≤ budget / pieces = (le-div_iff_mul-le one).1 (omega (arith, enough)) in
    omega (arith, ellipsis_length, fits)

-- Where the budget allows each piece seven characters, the preview of a batch keeps to the budget but
-- for the line breaks between the pieces. When every piece is longer than an equal share of the budget,
-- the preview has exactly that share for each piece and one more between two pieces.
pub bounded_preview-length :
    (piece : String) (pieces : List String) (budget : ℕ)
    → length (piece ∷ pieces) * 7 ≤ budget
    → (str_length (bounded_preview (piece ∷ pieces) budget) ≤ budget + length pieces)
      × (All (λ p. budget / length (piece ∷ pieces) < str_length p) (piece ∷ pieces)
          → str_length (bounded_preview (piece ∷ pieces) budget)
            ≡ length (piece ∷ pieces) * (budget / length (piece ∷ pieces)) + length pieces)
unfolding bounded_preview
bounded_preview-length piece pieces budget enough =
    let n = length (piece ∷ pieces) in
    let share = share_of n budget in
    let text = join_lines (cut_pieces share (piece ∷ pieces)) in
    let fits = share_fits n budget in
    let even : share ≡ budget / n = share_of-even n budget (omega arith) enough in
    let within : n * share ≤ budget =
      subst (λ s. n * s ≤ budget) (sym even) (mul-div-le budget n) in
    let bound : str_length text ≤ n * share + length pieces =
      subst (λ k. str_length text ≤ k * share + length pieces) (omega arith)
        (join_bounded share piece pieces fits) in
    (
      omega (arith, bound, within),
      λ h.
          subst (λ s. str_length text ≡ n * s + length pieces) even
            (subst (λ k. str_length text ≡ k * share + length pieces) (omega arith)
              (join_exact share piece pieces fits
                (subst (λ s. All (λ p. s < str_length p) (piece ∷ pieces)) (sym even) h))),
    )
