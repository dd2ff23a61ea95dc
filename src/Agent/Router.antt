-- ===== src/Agent/Router.antt =====
-- core/src/octoforge_core/agent/router.py, from the reply of the language model on: the prompt is text
-- for the model only. `none` for a reply stands for a call that raised or timed out.
use Prim.Native.Char.{Char, char, code}
use octo_forge.Base.{
  ℕ, String, Bool, true, false, Option, none, some, List, [], ◌∷◌, ◌&&◌, ◌||◌, str_eq, str_take,
  if◌then◌else◌, ◌==◌, leb, any, map, select_where, first_where,
}
use octo_forge.Domain.{ToolCall}
use octo_forge.Json.{Value, array, Members, get_field, as_text, texts_of}
use octo_forge.Dialogs.Exchanges.{ExchangeStatus, title_max_length}

pub data RouteAction : Type 0 where
  new continue command : RouteAction

pub record Usage : Type 0 where
  pub prompt_tokens : ℕ
  pub completion_tokens : ℕ
  pub cached_tokens : Option ℕ

pub record RouteDecision : Type 0 where
  pub action : RouteAction
  pub exchange_id : Option String
  pub cancel_ids : List String
  pub title : Option String
  pub usage : Option Usage

pub record ExchangeInfo : Type 0 where
  pub id : String
  pub title : String
  pub status : ExchangeStatus
  pub pending_question : Option String
  pub age_seconds : ℕ
  pub preview : Option String

-- what is read of a completion: the tool calls of its message, and its usage
pub record Completion : Type 0 where
  pub tool_calls : List ToolCall
  pub usage : Option Usage

-- `RouteDecision(cancel_ids=..)`
abbrev pub fallback : List String → RouteDecision
fallback cancel_ids = record {
  action = new;
  exchange_id = none;
  cancel_ids = cancel_ids;
  title = none;
  usage = none;
}

-- the characters at which `str.split()` splits
abbrev pub is_space : Char → Bool
is_space c =
    let n = code c in
    (leb 9 n && leb n 13)
    || (leb 28 n && leb n 32)
    || (n == 133 || n == 160 || n == 5760)
    || (leb 8192 n && leb n 8202)
    || (n == 8232 || n == 8233 || n == 8239 || n == 8287 || n == 12288)

abbrev pub space : Char
space = char 32 tt

-- `" ".join(value.split())`: the first flag says that a word stands before, the second one that
-- whitespace does
unfoldable pub collapse_from : Bool → Bool → String → String
collapse_from started gap String.[] = ""
collapse_from started gap (String.◌∷◌ c s) =
    let skipped = collapse_from started true s in
    let taken = collapse_from true false s in
    if is_space c
    then skipped
    else if started && gap
    then String.◌∷◌ space (String.◌∷◌ c taken)
    else String.◌∷◌ c taken

unfoldable pub collapse : String → String
collapse = collapse_from false false

-- `title[:TITLE_MAX_LENGTH] if title else None`
abbrev pub non_empty : String → Option String
non_empty t = if str_eq t "" then none else some (str_take title_max_length t)

-- `_clean_title`
unfoldable pub clean_title : Option Value → Option String
clean_title value = elim (as_text value) [ none ↦ none | some s ↦ non_empty (collapse s) ]

-- `_as_list`, and of its items the strings
abbrev pub listed : Option Value → List String
listed (some (array items)) = texts_of items
listed _ = []

abbrev pub is_in : List String → String → Bool
is_in known s = any (str_eq s) known

-- `RouteAction(str(value))`; no other JSON value prints like an action.
abbrev pub action_of : Option String → Option RouteAction
action_of none = none
action_of (some s) =
    if str_eq s "new"
    then some new
    else if str_eq s "continue"
    then some continue
    else if str_eq s "command"
    then some command
    else none

abbrev pub continue_with : List String → Option Value → List String → Option String → RouteDecision
continue_with known title cancel_ids none = fallback cancel_ids
continue_with known title cancel_ids (some target) =
    if is_in known target
    then record {
      action = continue;
      exchange_id = some target;
      cancel_ids = cancel_ids;
      title = clean_title title;
      usage = none;
    }
    else fallback cancel_ids

abbrev pub act : List String → Members → List String → Option RouteAction → RouteDecision
act known arguments cancel_ids none = fallback cancel_ids
act known arguments cancel_ids (some new) = fallback cancel_ids
act known arguments cancel_ids (some command) = record (fallback cancel_ids) { action = command }
act known arguments cancel_ids (some continue) =
    continue_with known (get_field "title" arguments) cancel_ids
      (as_text (get_field "exchange_id" arguments))

-- `_parse_decision`
unfoldable pub parse_decision : Members → List String → RouteDecision
parse_decision arguments known =
    act known arguments
      (select_where (is_in known) (listed (get_field "cancel_exchange_ids" arguments)))
      (action_of (as_text (get_field "action" arguments)))

abbrev pub route_tool_name : String
route_tool_name = "route"

abbrev pub decide : List ExchangeInfo → Completion → Option ToolCall → RouteDecision
decide exchanges reply none = record (fallback []) { usage = reply.usage }
decide exchanges reply (some call) =
    record (parse_decision call.arguments (map (λ e. e.id) exchanges)) { usage = reply.usage }

-- `LLMRouter.route`
unfoldable pub route : List ExchangeInfo → Option Completion → RouteDecision
route [] reply = fallback []
route (e ∷ exchanges) none = fallback []
route (e ∷ exchanges) (some reply) =
    decide (e ∷ exchanges) reply (first_where (λ c. str_eq c.name route_tool_name) reply.tool_calls)
