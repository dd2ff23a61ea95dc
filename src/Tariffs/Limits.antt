-- ===== src/Tariffs/Limits.antt =====
-- `LimitService` of core/src/octoforge_core/tariffs/service.py, and the usage ledger of
-- `SqlAlchemyUsageMeter` in tariffs/store.py. The service's state is its cache of the day's totals;
-- `time.monotonic()` and the start of the UTC day are arguments.
use octo_forge.Base.{
  ℕ, ◌+◌, String, Bool, true, false, Option, none, some, List, [], ◌∷◌, ◌++◌, ◌&&◌, str_eq,
  if◌then◌else◌, opt_test, ◌==◌, ltb, leb, any, select_where, delete_where, get_by,
}
use octo_forge.Tariffs.Catalog.{Tariff}

pub data UsageKind : Type 0 where
  llm_answer llm_routing llm_compaction voice_transcription vision user_message : UsageKind

pub data UsageOrigin : Type 0 where
  interactive cron background : UsageOrigin

pub record UsageEvent : Type 0 where
  pub user_id : String
  pub kind : UsageKind
  pub origin : UsageOrigin
  pub prompt_tokens : ℕ
  pub completion_tokens : ℕ
  pub quantity : ℕ
  pub dialog_id : Option String
  pub exchange_id : Option String
  pub task_id : Option String
  pub created_at : Option ℕ

pub record UsageTotals : Type 0 where
  pub prompt_tokens : ℕ
  pub completion_tokens : ℕ
  pub user_messages : ℕ
  pub assistant_messages : ℕ

abbrev pub tokens : UsageTotals → ℕ
tokens t = t.prompt_tokens + t.completion_tokens

-- a row of the ledger is its event, stamped
abbrev pub Ledger : Type 0
Ledger = List UsageEvent

-- `SqlAlchemyUsageMeter.record`
unfoldable pub append_event : UsageEvent → ℕ → Ledger → Ledger
append_event e now rows =
    rows ++ record e { created_at = some (elim e.created_at [ none ↦ now | some at ↦ at ]) } ∷ []

-- SUM, which is NULL and then 0 for no row
abbrev pub sum_of : (UsageEvent → ℕ) → Ledger → ℕ
sum_of f [] = 0
sum_of f (e ∷ rows) = f e + sum_of f rows

abbrev pub is_since : String → ℕ → UsageEvent → Bool
is_since user_id since e = str_eq e.user_id user_id && opt_test (λ at. leb since at) e.created_at

abbrev pub message_quantity : UsageEvent → ℕ
message_quantity e = elim e.kind [ user_message ↦ e.quantity | _ ↦ 0 ]

abbrev pub answer_quantity : UsageEvent → ℕ
answer_quantity e = elim e.kind [ llm_answer ↦ e.quantity | _ ↦ 0 ]

unfoldable pub totals_since : String → ℕ → Ledger → UsageTotals
totals_since user_id since rows =
    let mine = select_where (is_since user_id since) rows in
    record {
      prompt_tokens = sum_of (λ e. e.prompt_tokens) mine;
      completion_tokens = sum_of (λ e. e.completion_tokens) mine;
      user_messages = sum_of message_quantity mine;
      assistant_messages = sum_of answer_quantity mine;
    }

pub record LimitVerdict : Type 0 where
  pub allowed : Bool
  pub reason : Option String
  pub used : ℕ
  pub limit : ℕ

abbrev pub ok_verdict : LimitVerdict
ok_verdict = record { allowed = true; reason = none; used = 0; limit = 0 }

abbrev pub refusal : String → ℕ → ℕ → LimitVerdict
refusal reason used limit = record {
  allowed = false;
  reason = some reason;
  used = used;
  limit = limit;
}

-- `_check_tokens`
unfoldable pub check_tokens : Option ℕ → UsageTotals → LimitVerdict
check_tokens none totals = ok_verdict
check_tokens (some cap') totals =
    if leb cap' (tokens totals) then refusal "daily_tokens" (tokens totals) cap' else ok_verdict

abbrev pub check_answers : Option ℕ → Option ℕ → UsageTotals → LimitVerdict
check_answers none tokens_cap totals = check_tokens tokens_cap totals
check_answers (some cap') tokens_cap totals =
    if leb cap' totals.assistant_messages
    then refusal "daily_assistant_messages" totals.assistant_messages cap'
    else check_tokens tokens_cap totals

abbrev pub check_messages : Option ℕ → Option ℕ → Option ℕ → UsageTotals → LimitVerdict
check_messages none answers_cap tokens_cap totals = check_answers answers_cap tokens_cap totals
check_messages (some cap') answers_cap tokens_cap totals =
    if ltb cap' totals.user_messages
    then refusal "daily_user_messages" totals.user_messages cap'
    else check_answers answers_cap tokens_cap totals

-- an entry of `_totals_cache`
pub record CachedTotals : Type 0 where
  pub user_id : String
  pub expires : ℕ
  pub day : ℕ
  pub totals : UsageTotals

abbrev pub Cache : Type 0
Cache = List CachedTotals

abbrev pub cache_user : CachedTotals → String
cache_user c = c.user_id

abbrev pub forget : String → Cache → Cache
forget user_id = delete_where (λ c. str_eq c.user_id user_id)

-- The entry that is still good: `cached[0] > monotonic() and cached[1] == day_start`.
abbrev pub valid : ℕ → ℕ → CachedTotals → Bool
valid clock day_start c = ltb clock c.expires && c.day == day_start

-- `_totals_today`, with the clock's two readings
unfoldable pub totals_today : ℕ → String → ℕ → ℕ → ℕ → Ledger → Cache → UsageTotals × Cache
totals_today ttl user_id day_start clock later rows cache =
    let fresh = totals_since user_id day_start rows in
    let entry : CachedTotals = record {
      user_id = user_id;
      expires = later + ttl;
      day = day_start;
      totals = fresh;
    } in
    elim (get_by cache_user user_id cache) [
      | none ↦ (fresh, forget user_id cache ++ entry ∷ [])
      | some c ↦
          if valid clock day_start c
          then (c.totals, cache)
          else (fresh, forget user_id cache ++ entry ∷ [])
    ]

-- `record`: the ledger may refuse the event, which only is logged then
unfoldable pub record_event : Bool → UsageEvent → ℕ → Ledger × Cache → Ledger × Cache
record_event lost e now (rows, cache) =
    if lost then (rows, cache) else (append_event e now rows, forget e.user_id cache)

-- `check_run_budget`, for the plan that `resolve` finds
unfoldable pub check_run_budget :
    ℕ → Option Tariff → String → ℕ → ℕ → ℕ → Ledger → Cache → LimitVerdict × Cache
check_run_budget ttl none user_id day_start clock later rows cache = (ok_verdict, cache)
check_run_budget ttl (some tariff) user_id day_start clock later rows cache =
    let (totals, cache') = totals_today ttl user_id day_start clock later rows cache in
    (
      check_messages tariff.limits.daily_user_messages tariff.limits.daily_assistant_messages
          tariff.limits.daily_tokens totals,
      cache',
    )

-- `feature in tariff.features`
unfoldable pub allows : Option Tariff → String → Bool
allows none feature = true
allows (some tariff) feature = any (str_eq feature) tariff.features

unfoldable pub max_cron_jobs : Option Tariff → Option ℕ
max_cron_jobs none = none
max_cron_jobs (some tariff) = tariff.limits.max_cron_jobs
