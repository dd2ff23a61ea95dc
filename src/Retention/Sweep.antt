-- ===== src/Retention/Sweep.antt =====
-- `RetentionPolicy` of core/src/octoforge_core/retention.py and `RetentionSweeper` of
-- retention_sweep.py, over the tables of the dialogs, the summaries, the tasks and the usage ledger. The
-- clock's answer at a sweep is an argument, one for its four readings. The foreign key of a task on its
-- exchange is left out: every DELETE goes through, where a database that enforces the key refuses the
-- one of an exchange that a task still refers to, which ends the sweep. A cutoff before the least datetime, where the code would
-- raise an OverflowError, is 0 here.
use octo_forge.Base.{
  ℕ, ◌+◌, ◌-◌, ◌*◌, String, Bool, not, Option, none, some, List, [], ◌∷◌, ◌&&◌, ◌||◌, if◌then◌else◌,
  is_none, opt_test, ltb, leb, select_where, count_where, delete_where,
}
use octo_forge.Tasks.Api.{Task}
use octo_forge.Tasks.Memory.{Tasks}
use octo_forge.Tariffs.Limits.{UsageEvent, Ledger}
use octo_forge.Dialogs.Exchanges.{Exchange, Exchanges, is_live}
use octo_forge.Dialogs.Messages.{MessageRow, Messages}
use octo_forge.Context.Store.{Summaries, summarizes, highest}

pub record RetentionPolicy : Type 0 where
  pub messages_days : Option ℕ
  pub exchanges_days : Option ℕ
  pub tasks_days : Option ℕ
  pub usage_days : Option ℕ

abbrev pub is_set : Option ℕ → Bool
is_set days = not (is_none days)

abbrev pub enabled : RetentionPolicy → Bool
enabled p =
    is_set p.messages_days
    || (is_set p.exchanges_days || (is_set p.tasks_days || is_set p.usage_days))

-- the microseconds of a day
abbrev pub day : ℕ
day = 86400000000

abbrev pub cutoff : ℕ → Option ℕ → Option ℕ
cutoff now none = none
cutoff now (some days) = some (now - days * day)

pub record RetentionOutcome : Type 0 where
  pub messages : ℕ
  pub exchanges : ℕ
  pub tasks : ℕ
  pub usage : ℕ

abbrev pub total : RetentionOutcome → ℕ
total o = o.messages + (o.exchanges + (o.tasks + o.usage))

-- the tables that a sweep reads and writes
pub record Tables : Type 0 where
  pub messages : Messages
  pub summaries : Summaries
  pub exchanges : Exchanges
  pub tasks : Tasks
  pub usage : Ledger

-- The highest seq that a summary of the dialog covers, which is NULL without a summary.
abbrev pub boundary : String → Summaries → Option ℕ
boundary d summaries = elim (select_where (summarizes d) summaries) [
  | [] ↦ none
  | s ∷ rest ↦ some (highest (s ∷ rest))
]

-- the WHERE of each of the four statements
abbrev pub message_goes : Summaries → ℕ → MessageRow → Bool
message_goes summaries before m =
    ltb m.created_at before && opt_test (leb m.seq) (boundary m.dialog_id summaries)

abbrev pub exchange_goes : ℕ → Exchange → Bool
exchange_goes before e = ltb e.created_at before && not (is_live e.status)

abbrev pub task_goes : ℕ → Task → Bool
task_goes before t = ltb t.created_at before && is_set t.delivered_at

abbrev pub event_goes : ℕ → UsageEvent → Bool
event_goes before e = opt_test (λ at. ltb at before) e.created_at

-- one sweep of a table: nothing without a cutoff
abbrev pub swept {ℓ} : {A : Type ℓ} → (ℕ → A → Bool) → Option ℕ → List A → List A
swept goes none rows = rows
swept goes (some before) rows = delete_where (goes before) rows

abbrev pub gone {ℓ} : {A : Type ℓ} → (ℕ → A → Bool) → Option ℕ → List A → ℕ
gone goes none rows = 0
gone goes (some before) rows = count_where (goes before) rows

unfoldable pub sweep : RetentionPolicy → ℕ → Tables → RetentionOutcome × Tables
sweep p now t =
    if enabled p
    then (
      record {
        messages = gone (message_goes t.summaries) (cutoff now p.messages_days) t.messages;
        exchanges = gone exchange_goes (cutoff now p.exchanges_days) t.exchanges;
        tasks = gone task_goes (cutoff now p.tasks_days) t.tasks;
        usage = gone event_goes (cutoff now p.usage_days) t.usage;
      },
      record {
        messages = swept (message_goes t.summaries) (cutoff now p.messages_days) t.messages;
        summaries = t.summaries;
        exchanges = swept exchange_goes (cutoff now p.exchanges_days) t.exchanges;
        tasks = swept task_goes (cutoff now p.tasks_days) t.tasks;
        usage = swept event_goes (cutoff now p.usage_days) t.usage;
      },
    )
    else (record { messages = 0; exchanges = 0; tasks = 0; usage = 0 }, t)
