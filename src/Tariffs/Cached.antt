-- ===== src/Tariffs/Cached.antt =====
-- The cache of the day's totals in core/src/octoforge_core/tariffs/service.py, beside the ledger.
use mathlib.Core.Option.{some_inj}
use mathlib.Core.List.{append-nil}
use octo_forge.Base.{
  ℕ, ◌+◌, String, Bool, true, false, Option, none, some, [], ◌∷◌, ◌++◌, str_eq, eq_iff, ==_iff, All,
  All-append, get_by, select_where, select-append, ◌≡◌, refl, sym, ap, ◌∙◌, subst, arith,
  Bool-cases, inl, inr,
}
use octo_forge.Tariffs.Limits.{
  sum_of, is_since, UsageEvent, UsageTotals, Ledger, append_event, message_quantity,
  answer_quantity, totals_since, Cache, CachedTotals, cache_user, forget, valid, totals_today,
  record_event,
}

-- What one service does to its ledger and its cache: it records events, and asks for the totals of
-- users at any time, any day and any clock.
pub data Reached : Ledger → Cache → Type 0 where
  started : (rows : Ledger) → Reached rows []
  recorded :
      (lost : Bool) (e : UsageEvent) (now : ℕ) (rows : Ledger) (cache : Cache)
      → Reached rows cache
      → Reached (record_event lost e now (rows, cache)).0 (record_event lost e now (rows, cache)).1
  asked :
      (ttl : ℕ) (user : String) (day clock later : ℕ) (rows : Ledger) (cache : Cache)
      → Reached rows cache
      → Reached rows (totals_today ttl user day clock later rows cache).1

-- an entry says what the ledger says
abbrev pub IsCurrent : Ledger → CachedTotals → Type 0
IsCurrent rows c = c.totals ≡ totals_since c.user_id c.day rows

summed : Ledger → UsageTotals
summed mine = record {
  prompt_tokens = sum_of (λ e. e.prompt_tokens) mine;
  completion_tokens = sum_of (λ e. e.completion_tokens) mine;
  user_messages = sum_of message_quantity mine;
  assistant_messages = sum_of answer_quantity mine;
}

-- An event of one user leaves the totals of another one alone.
totals_since-other :
    (user : String) (day now : ℕ) (e : UsageEvent) (rows : Ledger)
    → str_eq e.user_id user ≡ false
    → totals_since user day (append_event e now rows) ≡ totals_since user day rows
unfolding totals_since append_event summed
totals_since-other user day now e rows other =
    let row : UsageEvent = record e {
      created_at = some (elim e.created_at [ none ↦ now | some at ↦ at ]);
    } in
    let nothing : select_where (is_since user day) (row ∷ []) ≡ [] = rw other refl in
    ap summed (
      select-append (is_since user day) rows (row ∷ [])
      ∙ ap (λ l. select_where (is_since user day) rows ++ l) nothing
      ∙ append-nil (select_where (is_since user day) rows))

forget-IsCurrent :
    (e : UsageEvent) (now : ℕ) (rows : Ledger) (cache : Cache)
    → All (IsCurrent rows) cache
    → All (IsCurrent (append_event e now rows)) (forget e.user_id cache)
forget-IsCurrent e now rows [] h = tt
forget-IsCurrent e now rows (c ∷ cache) h = elim (Bool-cases (str_eq c.user_id e.user_id)) [
  | inl mine ↦ rw mine (forget-IsCurrent e now rows cache h.1)
  | inr other ↦ rw other (
    h.0
        ∙ sym (
            totals_since-other c.user_id c.day now e rows
              (ground (arith, other, eq_iff c.user_id e.user_id, eq_iff e.user_id c.user_id))),
    forget-IsCurrent e now rows cache h.1,
  )
]

delete-IsCurrent :
    (user : String) (rows : Ledger) (cache : Cache)
    → All (IsCurrent rows) cache
    → All (IsCurrent rows) (forget user cache)
delete-IsCurrent user rows [] h = tt
delete-IsCurrent user rows (c ∷ cache) h = elim (Bool-cases (str_eq c.user_id user)) [
  | inl mine ↦ rw mine (delete-IsCurrent user rows cache h.1)
  | inr other ↦ rw other (h.0, delete-IsCurrent user rows cache h.1)
]

get-IsCurrent :
    (user : String) (rows : Ledger) (cache : Cache) (c : CachedTotals)
    → All (IsCurrent rows) cache
    → get_by cache_user user cache ≡ some c
    → (c.user_id ≡ user) × IsCurrent rows c
get-IsCurrent user rows [] c h e = absurd (ground (arith, e))
get-IsCurrent user rows (x ∷ cache) c h e = elim (Bool-cases (str_eq x.user_id user)) [
  | inl mine ↦
      let same : x ≡ c = some_inj.0 (sym (rw mine refl) ∙ e) in
      subst (λ y. (y.user_id ≡ user) × IsCurrent rows y) same ((eq_iff x.user_id user).0 mine, h.0)
  | inr other ↦ get-IsCurrent user rows cache c h.1 (ground (arith, other, e))
]

-- what is answered is what the ledger says, and the cache stays so
module _ (ttl : ℕ) (user : String) (day clock later : ℕ) (rows : Ledger) (cache : Cache)
    (h : All (IsCurrent rows) cache) where
  fresh_entry : CachedTotals
  fresh_entry = record {
    user_id = user;
    expires = later + ttl;
    day = day;
    totals = totals_since user day rows;
  }

  refreshed : All (IsCurrent rows) (forget user cache ++ fresh_entry ∷ [])
  unfolding fresh_entry
  refreshed =
      All-append (IsCurrent rows) (forget user cache) (fresh_entry ∷ [])
        (delete-IsCurrent user rows cache h) (refl, tt)

  totals_today-IsCurrent :
      ((totals_today ttl user day clock later rows cache).0 ≡ totals_since user day rows)
      × All (IsCurrent rows) (totals_today ttl user day clock later rows cache).1
  unfolding totals_today fresh_entry
  totals_today-IsCurrent = go (get_by cache_user user cache) refl
    where
      go :
          (o : Option CachedTotals)
          → get_by cache_user user cache ≡ o
          → ((totals_today ttl user day clock later rows cache).0 ≡ totals_since user day rows)
            × All (IsCurrent rows) (totals_today ttl user day clock later rows cache).1
      go none e = rw (e, totals_today) (refl, refreshed)
      go (some c) e = elim (Bool-cases (valid clock day c)) [
        | inr stale ↦ rw (e, totals_today) (rw stale (refl, refreshed))
        | inl good ↦
            let (mine, current) = get-IsCurrent user rows cache c h e in
            let today : c.day ≡ day = ground (arith, good, ==_iff c.day day) in
            rw (e, totals_today)
              (rw good (
                current
                    ∙ ap (λ u. totals_since u c.day rows) mine
                    ∙ ap (λ d. totals_since user d rows) today,
                h,
              ))
      ]

pub Reached-IsCurrent :
    {rows : Ledger} {cache : Cache} → Reached rows cache → All (IsCurrent rows) cache
unfolding record_event
Reached-IsCurrent (started rows) = tt
Reached-IsCurrent (recorded true e now rows cache r) = Reached-IsCurrent r
Reached-IsCurrent (recorded false e now rows cache r) =
    forget-IsCurrent e now rows cache (Reached-IsCurrent r)
Reached-IsCurrent (asked ttl user day clock later rows cache r) =
    (totals_today-IsCurrent ttl user day clock later rows cache (Reached-IsCurrent r)).1

-- A service that is the only one to write the ledger answers what the ledger says, from its cache or
-- not.
pub totals_today_exact :
    (ttl : ℕ) (user : String) (day clock later : ℕ) {rows : Ledger} {cache : Cache}
    → Reached rows cache
    → (totals_today ttl user day clock later rows cache).0 ≡ totals_since user day rows
totals_today_exact ttl user day clock later {rows} {cache} r =
    (totals_today-IsCurrent ttl user day clock later rows cache (Reached-IsCurrent r)).0
