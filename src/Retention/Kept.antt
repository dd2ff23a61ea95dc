-- ===== src/Retention/Kept.antt =====
-- What a sweep of core/src/octoforge_core/retention_sweep.py leaves to the readers of the tables.
use mathlib.Core.Option.{some_inj}
use octo_forge.Base.{
  ℕ, ◌+◌, ◌-◌, ◌*◌, ◌≤◌, String, Bool, true, false, Option, none, some, List, [], ◌∷◌, ◌&&◌, str_eq,
  eq_iff, is_none, opt_test, ltb, leb, length, select_where, count_where, delete_where, order_by,
  ◌≡◌, refl, ap, arith, Bool-cases, inl, inr,
}
use octo_forge.Tasks.Api.{is_final}
use octo_forge.Tasks.Memory.{in_dialog, list_undelivered}
use octo_forge.Tariffs.Limits.{
  UsageTotals, sum_of, message_quantity, answer_quantity, UsageEvent, Ledger, totals_since,
  is_since,
}
use octo_forge.Dialogs.Exchanges.{by_creation, is_live, list_live}
use octo_forge.Dialogs.Messages.{MessageRow, Messages, to_chat_message}
use octo_forge.Dialogs.Log.{of_dialog, read_all, rows_after, list_after}
use octo_forge.Context.Store.{Summaries, summarizes, highest, max_seq_to, list_hot_slice}
use octo_forge.Retention.Sweep.{
  RetentionPolicy, enabled, day, cutoff, Tables, boundary, message_goes, exchange_goes, task_goes,
  event_goes, swept, gone, sweep,
}

module _ {ℓ} {A : Type ℓ} where
  -- Rows that no deleted row is among are read as before.
  select-delete :
      (p q : A → Bool) (rows : List A)
      → ((r : A) → p r ≡ true → q r ≡ false)
      → select_where p (delete_where q rows) ≡ select_where p rows
  select-delete p q [] h = refl
  select-delete p q (r ∷ rows) h = ground (arith, h r, select-delete p q rows h)

  select-swept :
      (p : A → Bool) (goes : ℕ → A → Bool) (before : Option ℕ) (rows : List A)
      → ((n : ℕ) (r : A) → before ≡ some n → p r ≡ true → goes n r ≡ false)
      → select_where p (swept goes before rows) ≡ select_where p rows
  select-swept p goes none rows h = refl
  select-swept p goes (some n) rows h = select-delete p (goes n) rows (λ r. h n r refl)

  length-delete :
      (q : A → Bool) (rows : List A)
      → length rows ≡ length (delete_where q rows) + count_where q rows
  length-delete q [] = omega arith
  length-delete q (r ∷ rows) = ground (arith, length-delete q rows)

  length-swept :
      (goes : ℕ → A → Bool) (before : Option ℕ) (rows : List A)
      → length rows ≡ length (swept goes before rows) + gone goes before rows
  length-swept goes none rows = omega arith
  length-swept goes (some n) rows = length-delete (goes n) rows

-- A row that goes lies at or below the boundary of its dialog.
boundary-le :
    (d : String) (n : ℕ) (summaries : Summaries)
    → opt_test (leb n) (boundary d summaries) ≡ true
    → n ≤ max_seq_to d summaries
unfolding max_seq_to
boundary-le d n summaries h = go (select_where (summarizes d) summaries) h
  where
    go :
        (mine : Summaries)
        → opt_test (leb n) (elim mine [ [] ↦ none | s ∷ rest ↦ some (highest (s ∷ rest)) ]) ≡ true
        → n ≤ highest mine
    go [] e = absurd (ground (arith, e))
    go (s ∷ rest) e = ground (arith, e)

hot_stays :
    (summaries : Summaries) (n : ℕ) (d : String) (r : MessageRow)
    → (of_dialog d r && ltb (max_seq_to d summaries) r.seq) ≡ true
    → message_goes summaries n r ≡ false
hot_stays summaries n d r h =
    elim (Bool-cases (opt_test (leb r.seq) (boundary r.dialog_id summaries))) [
      | inr out ↦ ground (arith, out)
      | inl gone_ ↦
          let same : r.dialog_id ≡ d = (eq_iff r.dialog_id d).0 (ground (arith, h)) in
          let le = boundary-le r.dialog_id r.seq summaries gone_ in
          absurd (ground (arith, h, le, ap (λ e. max_seq_to e summaries) same))
    ]

-- The messages past a boundary are the same ones after a sweep.
pub past-sweep :
    (summaries : Summaries) (before : Option ℕ) (d : String) (messages : Messages)
    → select_where
        (λ r. of_dialog d r && ltb (max_seq_to d summaries) r.seq)
        (swept (message_goes summaries) before messages)
      ≡ select_where (λ r. of_dialog d r && ltb (max_seq_to d summaries) r.seq) messages
past-sweep summaries before d messages =
    select-swept (λ r. of_dialog d r && ltb (max_seq_to d summaries) r.seq) (message_goes summaries)
      before messages (λ n r e h. hot_stays summaries n d r h)

rows_after-sweep :
    (summaries : Summaries) (before : Option ℕ) (d : String) (messages : Messages)
    → rows_after d (max_seq_to d summaries) (swept (message_goes summaries) before messages)
      ≡ rows_after d (max_seq_to d summaries) messages
rows_after-sweep summaries before d messages =
    ap (order_by (λ r. r.seq)) (past-sweep summaries before d messages)

-- A policy that the settings can make: no limit of zero days.
abbrev pub IsSensible : Option ℕ → Type 0
IsSensible none = Unit
IsSensible (some days) = 1 ≤ days

-- what the readers of the tables get as before
pub record Same (day_start : ℕ) (before after : Tables) : Type 0 where
  pub slices :
      (d : String)
      → list_hot_slice d after.messages after.summaries
        ≡ list_hot_slice d before.messages before.summaries
  pub obligations : (d : String) → list_live d after.exchanges ≡ list_live d before.exchanges
  pub results :
      (scope : Option String)
      → list_undelivered scope after.tasks ≡ list_undelivered scope before.tasks
  pub totals :
      (user_id : String)
      → totals_since user_id day_start after.usage ≡ totals_since user_id day_start before.usage

recent_stays :
    (days : Option ℕ) (now day_start n : ℕ) (user_id : String) (e : UsageEvent)
    → IsSensible days
    → now - day ≤ day_start
    → cutoff now days ≡ some n
    → is_since user_id day_start e ≡ true
    → event_goes n e ≡ false
recent_stays none now day_start n user_id e sensible today at h = absurd (ground (arith, at))
recent_stays (some days) now day_start n user_id e sensible today at h =
    go e.created_at (ground (arith, h))
  where
    go :
        (created : Option ℕ)
        → opt_test (leb day_start) created ≡ true
        → opt_test (λ c. ltb c n) created ≡ false
    go none k = refl
    go (some c) k =
        let same : now - days * 86400000000 ≡ n = some_inj.0 at in ground (arith, k, same)

abbrev summed : Ledger → UsageTotals
summed mine = record {
  prompt_tokens = sum_of (λ e. e.prompt_tokens) mine;
  completion_tokens = sum_of (λ e. e.completion_tokens) mine;
  user_messages = sum_of message_quantity mine;
  assistant_messages = sum_of answer_quantity mine;
}

sweep-Same_tables :
    (p : RetentionPolicy) (now day_start : ℕ) (t : Tables)
    → IsSensible p.usage_days
    → now - day ≤ day_start
    → Same day_start t (record {
      messages = swept (message_goes t.summaries) (cutoff now p.messages_days) t.messages;
      summaries = t.summaries;
      exchanges = swept exchange_goes (cutoff now p.exchanges_days) t.exchanges;
      tasks = swept task_goes (cutoff now p.tasks_days) t.tasks;
      usage = swept event_goes (cutoff now p.usage_days) t.usage;
    })
unfolding list_hot_slice list_after list_live list_undelivered totals_since
sweep-Same_tables p now day_start t sensible today = record {
  slices = λ d.
      ap (read_all to_chat_message)
        (rows_after-sweep t.summaries (cutoff now p.messages_days) d t.messages);
  obligations = λ d. ap by_creation (
      select-swept (λ e. str_eq e.dialog_id d && is_live e.status) exchange_goes
        (cutoff now p.exchanges_days) t.exchanges (λ n e at h. ground (arith, h)));
  results = λ scope.
      select-swept (λ x. is_final x.status && (is_none x.delivered_at && in_dialog scope x))
        task_goes (cutoff now p.tasks_days) t.tasks (λ n x at h. ground (arith, h));
  totals = λ user_id. ap summed (
      select-swept (is_since user_id day_start) event_goes (cutoff now p.usage_days) t.usage
        (λ n e at h. recent_stays p.usage_days now day_start n user_id e sensible today at h));
}

-- A sweep changes nothing of what the agent reads: the hot slice of every dialog, its live exchanges, the
-- results that are still undelivered, and what a user has spent since the start of the day. A limit
-- of the usage ledger is assumed to be of a day or more, and the day's start to lie within the last 24
-- hours.
pub sweep-Same :
    (p : RetentionPolicy) (now day_start : ℕ) (t : Tables)
    → IsSensible p.usage_days
    → now - day ≤ day_start
    → Same day_start t (sweep p now t).1
unfolding sweep
sweep-Same p now day_start t sensible today = elim (Bool-cases (enabled p)) [
  | inl on ↦ rw on (sweep-Same_tables p now day_start t sensible today)
  | inr off ↦ rw off (record {
    slices = λ d. refl;
    obligations = λ d. refl;
    results = λ s. refl;
    totals = λ u. refl;
  })
]

-- A sweep reports exactly the rows that it deletes: each table was as long as it is now and the number
-- reported, and a policy without limits deletes nothing.
pub sweep_counts :
    (p : RetentionPolicy) (now : ℕ) (t : Tables)
    → (length t.messages ≡ length (sweep p now t).1.messages + (sweep p now t).0.messages)
      × (length t.exchanges ≡ length (sweep p now t).1.exchanges + (sweep p now t).0.exchanges)
      × (length t.tasks ≡ length (sweep p now t).1.tasks + (sweep p now t).0.tasks)
      × (length t.usage ≡ length (sweep p now t).1.usage + (sweep p now t).0.usage)
      × (enabled p ≡ false → (sweep p now t).1 ≡ t)
unfolding sweep
sweep_counts p now t = elim (Bool-cases (enabled p)) [
  | inl on ↦ rw on (
    length-swept (message_goes t.summaries) (cutoff now p.messages_days) t.messages,
    length-swept exchange_goes (cutoff now p.exchanges_days) t.exchanges,
    length-swept task_goes (cutoff now p.tasks_days) t.tasks,
    length-swept event_goes (cutoff now p.usage_days) t.usage,
    λ off. absurd (ground (arith, off)),
  )
  | inr off ↦ rw off (omega arith, omega arith, omega arith, omega arith, λ _. refl)
]
