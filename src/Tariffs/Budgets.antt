-- ===== src/Tariffs/Budgets.antt =====
-- The verdict on a run, and the totals that it rests on (core/src/octoforge_core/tariffs/service.py).
use octo_forge.Base.{
  str_eq, ◌++◌, if◌then◌else◌, select_where, ℕ, ◌+◌, ◌≤◌, ◌<◌, String, Bool, false, Option, none,
  some, [], ◌∷◌, ◌≡◌, refl, ◌&&◌, eq_iff, leb, arith, get_by,
}
use octo_forge.Tariffs.Catalog.{TariffLimits}
use octo_forge.Tariffs.Limits.{
  sum_of, is_since, UsageEvent, UsageTotals, tokens, Ledger, append_event, totals_since, Cache,
  cache_user, forget, totals_today, record_event,
}

-- within the caps of a plan: a cap on messages may be met, the other two may not
pub record InBudget (l : TariffLimits ℕ) (t : UsageTotals) : Type 0 where
  pub messages : (c : ℕ) → l.daily_user_messages ≡ some c → t.user_messages ≤ c
  pub answers : (c : ℕ) → l.daily_assistant_messages ≡ some c → t.assistant_messages < c
  pub spent : (c : ℕ) → l.daily_tokens ≡ some c → t.prompt_tokens + t.completion_tokens < c

-- a cap that is there
abbrev Caps : (ℕ → Type 0) → Option ℕ → Type 0
Caps P o = (c : ℕ) → o ≡ some c → P c

get-forget : (user : String) (cache : Cache) → get_by cache_user user (forget user cache) ≡ none
get-forget user [] = refl
get-forget user (c ∷ cache) = ground (arith, get-forget user cache)

-- After an event of a user was recorded, the totals of that user are those of the ledger, the event
-- included, whatever was cached before.
pub totals_after_record :
    (ttl : ℕ) (e : UsageEvent) (now day clock later : ℕ) (rows : Ledger) (cache : Cache)
    → (totals_today ttl e.user_id day clock later
        (record_event false e now (rows, cache)).0
        (record_event false e now (rows, cache)).1).0
      ≡ totals_since e.user_id day (append_event e now rows)
unfolding totals_today record_event
totals_after_record ttl e now day clock later rows cache =
    rw (get-forget e.user_id cache, totals_today) refl

-- Totals that are asked for again before they expire, on the same day, are answered from the cache:
-- the ledger is not read, and the cache stays as it is.
pub totals_cached :
    (ttl : ℕ) (user : String) (day clock later clock' later' : ℕ) (rows rows' : Ledger)
    → clock' < later + ttl
    → let first = totals_today ttl user day clock later rows [] in
      totals_today ttl user day clock' later' rows' first.1 ≡ first
unfolding totals_today
totals_cached ttl user day clock later clock' later' rows rows' soon =
    ground (arith, eq_iff user user, soon)

sum-append :
    (f : UsageEvent → ℕ) (p : UsageEvent → Bool) (rows : Ledger) (e : UsageEvent)
    → sum_of f (select_where p (rows ++ e ∷ []))
      ≡ sum_of f (select_where p rows) + (if p e then f e else 0)
sum-append f p [] e = ground arith
sum-append f p (r ∷ rows) e = ground (arith, sum-append f p rows e)

-- the event as the ledger keeps it, when it comes without a time of its own
abbrev pub stamped_at : ℕ → UsageEvent → UsageEvent
stamped_at now e = record e { created_at = some now }

-- An event without a time of its own that is recorded within the window adds its tokens to the tokens
-- of its user, and nothing to those of another user; one that is recorded before the window begins
-- adds nothing.
pub recorded_tokens :
    (user : String) (since now : ℕ) (e : UsageEvent) (rows : Ledger)
    → e.created_at ≡ none
    → tokens (totals_since user since (append_event e now rows))
      ≡ tokens (totals_since user since rows)
        + (if str_eq e.user_id user && leb since now
            then e.prompt_tokens + e.completion_tokens
            else 0)
unfolding totals_since append_event
recorded_tokens user since now e rows unstamped = rw (unstamped) (
    ground (
      arith,
      sum-append (λ e. e.prompt_tokens) (is_since user since) rows (stamped_at now e),
      sum-append (λ e. e.completion_tokens) (is_since user since) rows (stamped_at now e),
    ))
