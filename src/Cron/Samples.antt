-- ===== src/Cron/Samples.antt =====
-- The properties of the cron module at concrete tables, clocks and wakes.
use octo_forge.Base.{
  ℕ, ◌+◌, ◌<◌, String, true, false, none, some, List, [], ◌∷◌, ◌≡◌, refl, inr, eq_iff, Result, ok,
  err, arith, IsKeyed,
}
use octo_forge.Json.{text, member, no_members}
use octo_forge.Tasks.Api.{Task, answer, done}
use octo_forge.Cron.Api.{CronJob, Jobs, job_id, delivered}
use octo_forge.Cron.Schedule.{
  CronError, bad_date, Calendar, load_timezone, ensure_valid, compute_next_fire, count_slots,
  count_missed,
}
use octo_forge.Cron.Store.{claim}
use octo_forge.Cron.Exclusive.{Statement, claiming, switching, deleting, wins_in, claim_exclusive}
use octo_forge.Cron.Create.{CronJobDraft}
use octo_forge.Cron.Scheduler.{
  WakeRequest, WakeReply, answered, wake_raised, missed_run_count, prompt_for, fire,
}
use octo_forge.Cron.Firing.{fire_once, fire_handed_back}

abbrev hour_later : ℕ → Result CronError ℕ
hour_later base = ok (base + 60)

abbrev no_date : ℕ → Result CronError ℕ
no_date base = err bad_date

hour_later_lem : (base slot : ℕ) → hour_later base ≡ ok slot → base < slot
hour_later_lem base slot e = ground (arith, e)

no_date_lem : (base slot : ℕ) → no_date base ≡ ok slot → base < slot
no_date_lem base slot e = cc

-- every zone and expression is known, and a slot comes every 60 units
abbrev hourly : Calendar
hourly = record {
  knows_zone = λ _. true;
  is_valid = λ _. true;
  get_next = λ _ _. hour_later;
  get_next_later = λ _ _ base slot e. hour_later_lem base slot e;
}

-- an expression without a further date
abbrev exhausted : Calendar
exhausted = record {
  knows_zone = λ _. true;
  is_valid = λ _. true;
  get_next = λ _ _. no_date;
  get_next_later = λ _ _ base slot e. no_date_lem base slot e;
}

abbrev named_job : String → CronJob
named_job id = record {
  id = id;
  user_id = "ann";
  channel = "web";
  title = "digest";
  schedule = "0 * * * *";
  timezone = "UTC";
  prompt = "Send the digest";
  enabled = true;
  next_fire_at = 100;
  last_fire_at = none;
  claimed_by = none;
  claimed_at = none;
  created_at = 40;
  one_shot = true;
  last_status = none;
  last_error = none;
  retry_count = 0;
}

abbrev two_jobs : Jobs
two_jobs = named_job "a" ∷ named_job "b" ∷ []

two_jobs-IsKeyed : IsKeyed job_id two_jobs
two_jobs-IsKeyed = ((λ e. ground (arith, (eq_iff "b" "a").1 e), tt), (tt, tt))

abbrev between : List Statement
between = claiming "a" 100 "other" 120 90 ∷ switching "ann" "a" false none ∷ deleting "ann" "b" ∷ []

claim_exclusive_example : wins_in "a" between (claim "a" 100 "me" 100 60 two_jobs).1 ≡ 0
unfolding claim
claim_exclusive_example =
    claim_exclusive "a" 100 "me" 100 60 two_jobs two_jobs-IsKeyed refl between
      (omega arith, (tt, (tt, tt)))

abbrev draft : CronJobDraft
draft = record {
  user_id = "ann";
  channel = "web";
  title = "weather";
  schedule = "0 7 * * *";
  prompt = "Tell me the weather";
  timezone = "UTC";
  one_shot = false;
}

abbrev replying : WakeReply → WakeRequest → Jobs × Unit {0} → WakeReply × Jobs × Unit {0}
replying reply _ (rows, w) = (reply, rows, w)

fire_once_example :
    fire hourly
      (replying (answered delivered))
      "other"
      (named_job "a")
      200
      100
      (fire hourly (replying (answered delivered)) "me" (named_job "a") 100 60 (two_jobs, tt))
    ≡ fire hourly (replying (answered delivered)) "me" (named_job "a") 100 60 (two_jobs, tt)
unfolding claim prompt_for missed_run_count count_missed compute_next_fire load_timezone
    ensure_valid count_slots
fire_once_example =
    fire_once hourly (replying (answered delivered)) "me" "other" (named_job "a") 100 60 200 100 160
      (two_jobs, tt) "Send the digest" (omega arith) refl refl refl refl

fire_handed_back_example :
    (claim "a" 100 "other" 101 61
      (fire hourly (replying wake_raised) "me" (named_job "a") 100 60 (two_jobs, tt)).0).0
    ≡ true
unfolding claim prompt_for missed_run_count count_missed load_timezone ensure_valid count_slots
fire_handed_back_example =
    fire_handed_back hourly (replying wake_raised) "me" "other" (named_job "a") 100 60 101 61
      (two_jobs, tt) "Send the digest" two_jobs-IsKeyed refl refl (inr refl) refl

abbrev fired_task : Task
fired_task = record {
  id = "t";
  dialog_id = "d";
  title = "digest";
  kind = answer;
  input = member "cron_job_id" (text "b") no_members;
  exchange_id = none;
  status = done;
  result = some "sent";
  error = none;
  created_at = 100;
  started_at = some 100;
  finished_at = some 101;
  delivered_at = none;
}
