-- ===== src/Base/Texts.antt =====
-- Python's slices and lengths of texts, by code points.
use Prim.Native.Nat.{ℕ, zero, suc, ◌≤◌}
use Prim.Native.String.{String}
use native.Mathlib.Omega.{arith}

-- `s[:n]`
unfoldable pub str_take : ℕ → String → String
str_take zero s = ""
str_take (suc n) String.[] = ""
str_take (suc n) (String.◌∷◌ c s) = String.◌∷◌ c (str_take n s)

-- `len(s)`
unfoldable pub str_length : String → ℕ
str_length String.[] = 0
str_length (String.◌∷◌ c s) = suc (str_length s)

pub str_length-take : (n : ℕ) (s : String) → str_length (str_take n s) ≤ n
unfolding str_take str_length
str_length-take zero s = omega arith
str_length-take (suc n) String.[] = omega arith
str_length-take (suc n) (String.◌∷◌ c s) = omega (arith, str_length-take n s)

-- `s + t`
unfoldable pub str_append : String → String → String
str_append String.[] t = t
str_append (String.◌∷◌ c s) t = String.◌∷◌ c (str_append s t)
