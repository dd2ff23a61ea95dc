-- ===== src/Dialogs/Samples.antt =====
-- The properties of the claims and the exchanges at concrete tables.
use octo_forge.Base.{
  touched, ◌&&◌, str_eq, ℕ, String, false, none, some, List, [], ◌∷◌, ◌≡◌, refl, str_eq, eq_iff,
  any, arith, count_where, get_by,
}
use octo_forge.Json.{no_members}
use octo_forge.Tasks.Api.{Task, answer, running}
use octo_forge.Tasks.Memory.{Tasks}
use octo_forge.Dialogs.Claims.{DialogClaim, Claims, dialog, first_claim, claim, heartbeat, release}
use octo_forge.Dialogs.Preemption
use octo_forge.Dialogs.Preemption.{preempted, one_keeper}
use octo_forge.Dialogs.Exchanges.{
  is_open, is_in_progress, is_running_in, reopened, Exchange, Exchanges, exchange_id, opened,
  in_progress, answered, cancelled, reopen_and_list_stranded,
}
use octo_forge.Dialogs.Settled
use octo_forge.Dialogs.Settled.{IsStill, settled_is_final}
use octo_forge.Dialogs.Stranded.{is_stranded, reopen_counts}

abbrev held : Claims
held = first_claim "d" "one" 5 ∷ []

abbrev meanwhile : List Preemption.Statement
meanwhile =
    Preemption.refreshing (first_claim "d" "one" 5 ∷ []) 10
    ∷ Preemption.releasing "d" "two" 2
    ∷ Preemption.claiming "d" "three" 12
    ∷ []

preempted_example :
    (any
        (str_eq "d")
        (heartbeat held 20 (Preemption.history meanwhile (claim "d" "two" 9 held).1)).0
      ≡ false)
    × (get_by dialog "d"
          (release "d" "one" 1 (Preemption.history meanwhile (claim "d" "two" 9 held).1))
        ≡ get_by dialog "d" (Preemption.history meanwhile (claim "d" "two" 9 held).1))
preempted_example =
    preempted "d" "one" "two" 9 held (tt, tt) (λ e. ground (arith, (eq_iff "two" "one").1 e))
      meanwhile (tt, (tt, ((λ _ e. ground (arith, (eq_iff "three" "one").1 e)), tt))) held 20 1
      (refl, tt)

abbrev rival : List DialogClaim
rival = first_claim "d" "two" 5 ∷ []

one_keeper_example : any (str_eq "d") (heartbeat rival 21 (heartbeat held 20 held).1).0 ≡ false
unfolding heartbeat
one_keeper_example =
    one_keeper "d" "one" "two" held (tt, tt) (λ e. ground (arith, (eq_iff "two" "one").1 e)) held
      rival 20 21 (refl, tt) (refl, tt) refl

abbrev running_task : String → ℕ → Task
running_task id born = record {
  id = id;
  dialog_id = "d";
  title = "question";
  kind = answer;
  input = no_members;
  exchange_id = some "e";
  status = running;
  result = none;
  error = none;
  created_at = born;
  started_at = none;
  finished_at = none;
  delivered_at = none;
}

abbrev two_tasks : Tasks
two_tasks = running_task "a" 3 ∷ running_task "b" 8 ∷ []

abbrev exchange : Exchange
exchange = record {
  id = "e";
  dialog_id = "d";
  status = in_progress;
  title = "question";
  created_at = 2;
  updated_at = 2;
  pending_question = none;
}

abbrev one_exchange : Exchanges
one_exchange = exchange ∷ []

abbrev closed : Exchange
closed = record exchange { status = cancelled }

abbrev afterwards : List Settled.Change
afterwards =
    Settled.settling "e" "b" answered false 9 two_tasks
    ∷ Settled.reopening "d" 10 []
    ∷ Settled.touching "e" 11
    ∷ Settled.setting "f" opened none 12
    ∷ []

settled_is_final_example :
    IsStill cancelled (get_by exchange_id "e" (Settled.history afterwards (closed ∷ [])))
settled_is_final_example =
    settled_is_final "e" closed (closed ∷ []) (tt, tt) refl refl afterwards
      (tt, (tt, (tt, ((λ e. ground (arith, (eq_iff "f" "e").1 e)), tt))))

-- One exchange is reopened, and none is reported: its run is still recorded as running.
reopen_counts_example :
    (count_where (λ e. is_open e.status) (reopen_and_list_stranded "d" 9 two_tasks one_exchange).1.0
      ≡ count_where
          (λ e.
            is_stranded "d" two_tasks e
            && is_open (touched (is_running_in "d") (reopened 9) e).status)
          one_exchange)
    × ((reopen_and_list_stranded "d" 9 two_tasks one_exchange).0
        ≡ count_where (λ e. str_eq e.dialog_id "d" && is_in_progress e.status) one_exchange)
reopen_counts_example = reopen_counts "d" 9 two_tasks one_exchange (λ e. is_open e.status)
