-- ===== src/Net/Responses.antt =====
-- `ResponseMemory` of core/src/octoforge_core/net/response_memory.py. Its dictionary is the list of its
-- values in their order of insertion; the id that is drawn and the clock are arguments.
use octo_forge.Base.{
  ℕ, zero, suc, ◌+◌, String, Bool, not, Option, none, some, List, [], ◌∷◌, str_eq, ltb, leb, ◌==◌,
  if◌then◌else◌, Result, ok, err, length, str_length, str_append, select_where, update_where,
  delete_where, get_by,
}
use octo_forge.Json.{Value}

pub data ResponseError : Type 0 where
  not_found : ResponseError

pub record StoredResponse : Type 0 where
  pub id : String
  pub owner_id : String
  pub scope : String
  pub kind : String
  pub source : String
  pub body : String
  pub document : Option Value
  pub last_access : ℕ

pub record StoredDocument : Type 0 where
  pub ref : String
  pub kind : String
  pub source : String
  pub body : String
  pub document : Option Value

abbrev pub Responses : Type 0
Responses = List StoredResponse

abbrev pub ref_prefix : String
ref_prefix = "resp:"

-- `StoredResponse.ref`
abbrev pub ref_of : StoredResponse → String
ref_of r = str_append ref_prefix r.id

-- `sum(len(item.body) for item in mine)`
unfoldable pub total_chars : Responses → ℕ
unfolding str_length
total_chars [] = 0
total_chars (r ∷ rows) = str_length r.body + total_chars rows

-- `min(mine, key=lambda item: item.last_access)`, the first of those that are equal
unfoldable pub oldest_of : StoredResponse → Responses → StoredResponse
oldest_of m [] = m
oldest_of m (x ∷ rows) = oldest_of (if ltb x.last_access m.last_access then x else m) rows

unfoldable pub oldest : Responses → Option StoredResponse
unfolding oldest_of
oldest [] = none
oldest (m ∷ rows) = some (oldest_of m rows)

-- `mine.remove(item)`
unfoldable pub remove : String → Responses → Responses
remove id [] = []
remove id (r ∷ rows) = if str_eq r.id id then rows else r ∷ remove id rows

-- what a round of the loop of `_evict` deletes, if the loop goes on
unfoldable pub victim : ℕ → Responses → Option StoredResponse
unfolding total_chars oldest
victim budget mine =
    if leb (total_chars mine) budget then none else if length mine == 1 then none else oldest mine

-- the loop of `_evict`, in at most as many rounds as it is given
unfoldable pub evict_rounds : ℕ → ℕ → Responses → Responses → Responses
unfolding victim remove
evict_rounds zero budget mine items = items
evict_rounds (suc rounds) budget mine items = elim (victim budget mine) [
  | none ↦ items
  | some r ↦
      evict_rounds rounds budget (remove r.id mine) (delete_where (λ x. str_eq x.id r.id) items)
]

abbrev pub is_of : String → StoredResponse → Bool
is_of owner_id r = str_eq r.owner_id owner_id

-- `_evict`
unfoldable pub evict : String → ℕ → Responses → Responses
unfolding evict_rounds
evict owner_id budget items =
    let mine = select_where (is_of owner_id) items in evict_rounds (length mine) budget mine items

-- `self._items[item.id] = item`
unfoldable pub set_item : StoredResponse → Responses → Responses
set_item item [] = item ∷ []
set_item item (r ∷ rows) = if str_eq r.id item.id then item ∷ rows else r ∷ set_item item rows

-- `store`, for the item made of its arguments, with the tables that it leaves
unfoldable pub store : StoredResponse → ℕ → Responses → Responses
unfolding evict set_item
store item budget items = evict item.owner_id budget (set_item item items)

-- `ref.removeprefix(REF_PREFIX)`; the first text is what is left to compare
unfoldable pub strip_prefix : String → String → String → String
strip_prefix String.[] s whole = s
strip_prefix (String.◌∷◌ c p) String.[] whole = whole
strip_prefix (String.◌∷◌ c p) (String.◌∷◌ d s) whole =
    if str_eq (String.◌∷◌ c String.[]) (String.◌∷◌ d String.[])
    then strip_prefix p s whole
    else whole

abbrev pub key_of : String → String
key_of ref = strip_prefix ref_prefix ref ref

-- `get` for the item that was looked up
unfoldable pub got :
    Option StoredResponse
    → String
    → ℕ
    → Responses
    → Result ResponseError (StoredResponse × Responses)
got none owner_id now items = err not_found
got (some item) owner_id now items =
    if not (str_eq item.owner_id owner_id)
    then err not_found
    else ok (
      record item { last_access = now },
      update_where (λ r. str_eq r.id item.id) (λ r. record r { last_access = now }) items,
    )

-- `get`
unfoldable pub get :
    String → String → ℕ → Responses → Result ResponseError (StoredResponse × Responses)
unfolding got strip_prefix
get owner_id ref now items = got (get_by (λ r. r.id) (key_of ref) items) owner_id now items

-- `_to_document`
unfoldable pub to_document : StoredResponse → StoredDocument
to_document item = record {
  ref = ref_of item;
  kind = item.kind;
  source = item.source;
  body = item.body;
  document = item.document;
}

abbrev pub fetched :
    Result ResponseError (StoredResponse × Responses)
    → Result ResponseError (StoredDocument × Responses)
fetched (err e) = err e
fetched (ok (item, items)) = ok (to_document item, items)

-- `fetch`
unfoldable pub fetch :
    String → String → ℕ → Responses → Result ResponseError (StoredDocument × Responses)
unfolding get to_document
fetch owner_id ref now items = fetched (get owner_id ref now items)

-- `drop_scope`
unfoldable pub drop_scope : String → Responses → Responses
drop_scope scope items = delete_where (λ r. str_eq r.scope scope) items
