-- ===== src/Datasets/Typing.antt =====
-- The JSON values of a field's type in core/src/octoforge_core/datasets/validation.py.
use octo_forge.Base.{ℕ, String, Bool, true, ◌≡◌, refl, arith}
use octo_forge.Json.{Value, text, number, fraction, boolean, array, object, null}
use octo_forge.Datasets.Schema.{
  FieldType, string, integer, real, truth, date, datetime, Parsers, matches_type,
}

-- The JSON values of a type: a boolean is no number, and a fraction no integer.
pub data HasType (p : Parsers) : FieldType → Value → Type 0 where
  text_string : (s : String) → HasType p string (text s)
  number_integer : (n : ℕ) → HasType p integer (number n)
  number_real : (n : ℕ) → HasType p real (number n)
  fraction_real : (s : String) → HasType p real (fraction s)
  boolean_truth : (b : Bool) → HasType p truth (boolean b)
  text_date : (s : String) → p.is_date s ≡ true → HasType p date (text s)
  text_datetime : (s : String) → p.is_datetime s ≡ true → HasType p datetime (text s)

pub HasType-matches :
    (p : Parsers) (t : FieldType) (v : Value) → HasType p t v → matches_type p t v ≡ true
HasType-matches p t v (text_string s) = refl
HasType-matches p t v (number_integer n) = refl
HasType-matches p t v (number_real n) = refl
HasType-matches p t v (fraction_real s) = refl
HasType-matches p t v (boolean_truth b) = refl
HasType-matches p t v (text_date s h) = h
HasType-matches p t v (text_datetime s h) = h

matches-string : (p : Parsers) (v : Value) → matches_type p string v ≡ true → HasType p string v
matches-string p (text s) h = text_string s
matches-string p (number n) h = absurd (ground (arith, h))
matches-string p (fraction s) h = absurd (ground (arith, h))
matches-string p (boolean b) h = absurd (ground (arith, h))
matches-string p (array items) h = absurd (ground (arith, h))
matches-string p (object d) h = absurd (ground (arith, h))
matches-string p null h = absurd (ground (arith, h))

matches-integer : (p : Parsers) (v : Value) → matches_type p integer v ≡ true → HasType p integer v
matches-integer p (text s) h = absurd (ground (arith, h))
matches-integer p (number n) h = number_integer n
matches-integer p (fraction s) h = absurd (ground (arith, h))
matches-integer p (boolean b) h = absurd (ground (arith, h))
matches-integer p (array items) h = absurd (ground (arith, h))
matches-integer p (object d) h = absurd (ground (arith, h))
matches-integer p null h = absurd (ground (arith, h))

matches-real : (p : Parsers) (v : Value) → matches_type p real v ≡ true → HasType p real v
matches-real p (text s) h = absurd (ground (arith, h))
matches-real p (number n) h = number_real n
matches-real p (fraction s) h = fraction_real s
matches-real p (boolean b) h = absurd (ground (arith, h))
matches-real p (array items) h = absurd (ground (arith, h))
matches-real p (object d) h = absurd (ground (arith, h))
matches-real p null h = absurd (ground (arith, h))

matches-truth : (p : Parsers) (v : Value) → matches_type p truth v ≡ true → HasType p truth v
matches-truth p (text s) h = absurd (ground (arith, h))
matches-truth p (number n) h = absurd (ground (arith, h))
matches-truth p (fraction s) h = absurd (ground (arith, h))
matches-truth p (boolean b) h = boolean_truth b
matches-truth p (array items) h = absurd (ground (arith, h))
matches-truth p (object d) h = absurd (ground (arith, h))
matches-truth p null h = absurd (ground (arith, h))

matches-date : (p : Parsers) (v : Value) → matches_type p date v ≡ true → HasType p date v
matches-date p (text s) h = text_date s h
matches-date p (number n) h = absurd (ground (arith, h))
matches-date p (fraction s) h = absurd (ground (arith, h))
matches-date p (boolean b) h = absurd (ground (arith, h))
matches-date p (array items) h = absurd (ground (arith, h))
matches-date p (object d) h = absurd (ground (arith, h))
matches-date p null h = absurd (ground (arith, h))

matches-datetime :
    (p : Parsers) (v : Value) → matches_type p datetime v ≡ true → HasType p datetime v
matches-datetime p (text s) h = text_datetime s h
matches-datetime p (number n) h = absurd (ground (arith, h))
matches-datetime p (fraction s) h = absurd (ground (arith, h))
matches-datetime p (boolean b) h = absurd (ground (arith, h))
matches-datetime p (array items) h = absurd (ground (arith, h))
matches-datetime p (object d) h = absurd (ground (arith, h))
matches-datetime p null h = absurd (ground (arith, h))

pub matches-HasType :
    (p : Parsers) (t : FieldType) (v : Value) → matches_type p t v ≡ true → HasType p t v
matches-HasType p string v h = matches-string p v h
matches-HasType p integer v h = matches-integer p v h
matches-HasType p real v h = matches-real p v h
matches-HasType p truth v h = matches-truth p v h
matches-HasType p date v h = matches-date p v h
matches-HasType p datetime v h = matches-datetime p v h
