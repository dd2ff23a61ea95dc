-- ===== src/Tariffs/Catalog.antt =====
-- `SqlAlchemyTariffStore` of core/src/octoforge_core/tariffs/store.py, over the tables `tariffs` and
-- `user_tariffs`. Codes, titles and features are taken as `normalize_code`, `normalize_title` and
-- `normalize_feature` return them, the features sorted and each once; the ids of new rows and the
-- clock's answer are arguments.
use octo_forge.Base.{
  ℕ, String, Bool, false, not, Option, none, some, List, [], ◌∷◌, ◌++◌, ◌&&◌, str_eq, str_leb,
  if◌then◌else◌, is_none, ◌==◌, any, Result, ok, err, ◌>>=◌, first_where, update_where,
  delete_where, count_where, order_with, get_by,
}

pub data TariffError : Type 0 where
  not_found in_use invalid integrity_error : TariffError

-- a Python int
pub data ℤ : Type 0 where
  pos : ℕ → ℤ
  negsuc : ℕ → ℤ

-- the caps, as they are given (ℤ) or validated (ℕ)
pub record TariffLimits (N : Type 0) : Type 0 where
  pub daily_tokens : Option N
  pub daily_user_messages : Option N
  pub daily_assistant_messages : Option N
  pub max_cron_jobs : Option N
  pub max_datasets : Option N
  pub max_memory_chars : Option N

abbrev pub normalize_limit : Option ℤ → Result TariffError (Option ℕ)
normalize_limit none = ok none
normalize_limit (some (pos n)) = ok (some n)
normalize_limit (some (negsuc n)) = err invalid

unfoldable pub normalized : TariffLimits ℤ → Result TariffError (TariffLimits ℕ)
normalized l = do
  tokens ← normalize_limit l.daily_tokens
  user_messages ← normalize_limit l.daily_user_messages
  assistant_messages ← normalize_limit l.daily_assistant_messages
  cron_jobs ← normalize_limit l.max_cron_jobs
  datasets ← normalize_limit l.max_datasets
  memory_chars ← normalize_limit l.max_memory_chars
  ok (record {
    daily_tokens = tokens;
    daily_user_messages = user_messages;
    daily_assistant_messages = assistant_messages;
    max_cron_jobs = cron_jobs;
    max_datasets = datasets;
    max_memory_chars = memory_chars;
  })

pub record Tariff : Type 0 where
  pub id : String
  pub code : String
  pub title : String
  pub features : List String
  pub limits : TariffLimits ℕ
  pub created_at : ℕ
  pub updated_at : ℕ
  pub is_default : Bool

pub record UserTariff : Type 0 where
  pub id : String
  pub user_id : String
  pub tariff_id : String
  pub assigned_at : ℕ

pub record Catalog : Type 0 where
  pub tariffs : List Tariff
  pub bindings : List UserTariff

abbrev pub tariff_id : Tariff → String
tariff_id t = t.id

abbrev pub tariff_code : Tariff → String
tariff_code t = t.code

-- `_find_tariff`; codes are unique
unfoldable pub find_tariff : String → List Tariff → Option Tariff
find_tariff code rows = get_by tariff_code code rows

abbrev pub replaced : String → List String → TariffLimits ℕ → Bool → ℕ → Tariff → Tariff
replaced title features caps is_default now t = record t {
  title = title;
  features = features;
  limits = caps;
  updated_at = now;
  is_default = is_default;
}

-- `UPDATE .. WHERE code != code`, sent for a default plan only
abbrev pub demote_others : Bool → String → List Tariff → List Tariff
demote_others is_default code rows =
    if is_default
    then update_where (λ t. not (str_eq t.code code)) (λ t. record t { is_default = false }) rows
    else rows

abbrev pub new_tariff : String → String → String → List String → TariffLimits ℕ → Bool → ℕ → Tariff
new_tariff id code title features caps is_default now = record {
  id = id;
  code = code;
  title = title;
  features = features;
  limits = caps;
  created_at = now;
  updated_at = now;
  is_default = is_default;
}

-- the rows after an upsert under the code, and the plan that is answered
unfoldable pub put_rows :
    String
    → String
    → String
    → List String
    → TariffLimits ℕ
    → Bool
    → ℕ
    → List Tariff
    → Result TariffError (Tariff × List Tariff)
put_rows id code title features caps is_default now rows = elim (find_tariff code rows) [
  | none ↦
      let row = new_tariff id code title features caps is_default now in
      if is_none (get_by tariff_id id rows)
      then ok (row, demote_others is_default code (rows ++ row ∷ []))
      else err integrity_error
  | some t ↦ ok (
    replaced title features caps is_default now t,
    demote_others is_default code
        (update_where (λ r. str_eq r.code code) (replaced title features caps is_default now) rows),
  )
]

unfoldable pub put :
    String
    → String
    → String
    → List String
    → TariffLimits ℤ
    → Bool
    → ℕ
    → Catalog
    → Result TariffError (Tariff × Catalog)
put id code title features limits is_default now cat = normalized limits >>= λ caps.
    put_rows id code title features caps is_default now cat.tariffs >>= λ r.
    ok (r.0, record cat { tariffs = r.1 })

unfoldable pub list : Catalog → List Tariff
list cat = order_with (λ a b. str_leb a.code b.code) cat.tariffs

unfoldable pub delete : String → Catalog → Result TariffError Catalog
delete code cat = elim (find_tariff code cat.tariffs) [
  | none ↦ err not_found
  | some t ↦
      if count_where (λ b. str_eq b.tariff_id t.id) cat.bindings == 0
      then ok (record cat { tariffs = delete_where (λ r. str_eq r.id t.id) cat.tariffs })
      else err in_use
]

abbrev pub binding_id : UserTariff → String
binding_id b = b.id

abbrev pub unbind : Option UserTariff → Catalog → Catalog
unbind none cat = cat
unbind (some b) cat = record cat { bindings = delete_where (λ r. str_eq r.id b.id) cat.bindings }

abbrev pub bind :
    String → String → String → ℕ → Option UserTariff → Catalog → Result TariffError Catalog
bind id user_id plan now none cat =
    let row : UserTariff = record {
      id = id;
      user_id = user_id;
      tariff_id = plan;
      assigned_at = now;
    } in
    if is_none (get_by binding_id id cat.bindings)
    then ok (record cat { bindings = cat.bindings ++ row ∷ [] })
    else err integrity_error
bind id user_id plan now (some b) cat = ok (record cat {
  bindings =
      update_where (λ r. str_eq r.id b.id) (λ r. record r { tariff_id = plan; assigned_at = now })
        cat.bindings;
})

unfoldable pub assign : String → String → Option String → ℕ → Catalog → Result TariffError Catalog
assign id user_id code now cat =
    let binding = first_where (λ b. str_eq b.user_id user_id) cat.bindings in
    elim code as (λ _. Result TariffError Catalog) [
      | none ↦ ok (unbind binding cat)
      | some c ↦ elim (find_tariff c cat.tariffs) as (λ _. Result TariffError Catalog) [
        | none ↦ err not_found
        | some t ↦ bind id user_id t.id now binding cat
      ]
    ]

-- the JOIN over the bindings of the user
abbrev pub is_plan_of : String → List UserTariff → Tariff → Bool
is_plan_of user_id bindings t =
    any (λ b. str_eq b.tariff_id t.id && str_eq b.user_id user_id) bindings

-- the bound plan, and else the default one
unfoldable pub tariff_for_user : String → Catalog → Option Tariff
tariff_for_user user_id cat = elim (first_where (is_plan_of user_id cat.bindings) cat.tariffs) [
  | some t ↦ some t
  | none ↦ first_where (λ t. t.is_default) cat.tariffs
]
