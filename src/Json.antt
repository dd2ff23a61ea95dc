-- ===== src/Json.antt =====
-- JSON as Python's `json` module hands it over: the arguments of a tool call (agent/router.py) and
-- the `input` of a task (tasks/api.py), both under core/src/octoforge_core. No modelled function
-- looks into a number: an integer keeps no more than a natural one, and a number with a fraction its
-- text.
use octo_forge.Base.{ℕ, String, Bool, Option, none, some, List, [], ◌∷◌, str_eq, if◌then◌else◌}

mutual
  pub data Members : Type 0 where
    member : String → Value → Members → Members
    no_members : Members

  pub data Elements : Type 0 where
    element : Value → Elements → Elements
    no_elements : Elements

  pub data Value : Type 0 where
    text : String → Value
    array : Elements → Value
    object : Members → Value
    number : ℕ → Value
    fraction : String → Value
    boolean : Bool → Value
    null : Value

-- `d.get(key)`
abbrev pub get_field : String → Members → Option Value
get_field k no_members = none
get_field k (member j v rest) = if str_eq j k then some v else get_field k rest

-- `value if isinstance(value, str) else None`
abbrev pub as_text : Option Value → Option String
as_text (some (text s)) = some s
as_text _ = none

-- the items of a list that are strings, and nothing for a value that is no list
abbrev pub texts_of : Elements → List String
texts_of no_elements = []
texts_of (element v rest) = elim v [ text s ↦ s ∷ texts_of rest | _ ↦ texts_of rest ]
