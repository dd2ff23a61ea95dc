-- ===== src/Dialogs/Settled.antt =====
-- Histories of changes to the table `exchanges` (core/src/octoforge_core/dialogs/store.py), seen from
-- one exchange that is settled.
use octo_forge.Base.{
  ℕ, String, Bool, true, false, Option, none, some, List, [], ◌∷◌, ◌++◌, ◌≡◌, ◌≢◌, refl, ◌&&◌,
  str_eq, eq_iff, if◌then◌else◌, opt_test, arith, All, update_where, delete_where, count_where,
  get_by, IsKeyed, touched, get-update, get-delete, get-append_ne, key-get, update-IsKeyed,
  delete-IsKeyed, append-IsKeyed, absent_of_get, Option-cases, inl, inr, ◌==◌,
}
use mathlib.Core.Option
use octo_forge.Tasks.Memory.{Tasks}
use octo_forge.Dialogs.Exchanges.{
  ExchangeStatus, Exchange, Exchanges, exchange_id, is_live, create, touch, set_title,
  is_running_in, reopened, reopen_and_list_stranded, with_status, set_status, can_settle,
  settle_owned, delete_for_dialog,
}

-- What reaches the table.
pub data Change : Type 0 where
  creating : String → String → String → Option ExchangeStatus → ℕ → ℕ → Change
  touching : String → ℕ → Change
  renaming : String → String → ℕ → Change
  reopening : String → ℕ → Tasks → Change
  setting : String → ExchangeStatus → Option String → ℕ → Change
  settling : String → String → ExchangeStatus → Bool → ℕ → Tasks → Change
  dropping : String → Change

abbrev or_same : Exchanges → Option Exchanges → Exchanges
or_same rows none = rows
or_same rows (some new) = new

abbrev or_same_pair : Exchanges → Option (Exchange × Exchanges) → Exchanges
or_same_pair rows none = rows
or_same_pair rows (some (e, new)) = new

pub apply : Change → Exchanges → Exchanges
apply (creating id dialog title status c u) rows =
    or_same_pair rows (create id dialog title status c u rows)
apply (touching id now) rows = touch id now rows
apply (renaming id title now) rows = set_title id title now rows
apply (reopening dialog now tasks) rows = (reopen_and_list_stranded dialog now tasks rows).1.1
apply (setting id status question now) rows = or_same rows (set_status id status question now rows)
apply (settling id task status keep now tasks) rows =
    (settle_owned id task status keep now tasks rows).1
apply (dropping dialog) rows = delete_for_dialog dialog rows

pub history : List Change → Exchanges → Exchanges
history [] rows = rows
history (s ∷ ss) rows = history ss (apply s rows)

-- no explicit `set_status` of the exchange, and no other exchange under its id
abbrev pub Spares : String → Change → Type 0
Spares id (setting id' _ _ _) = id' ≢ id
Spares id (creating id' _ _ _ _ _) = id' ≢ id
Spares id _ = Unit

-- gone, or in that status
abbrev pub IsStill : ExchangeStatus → Option Exchange → Type 0
IsStill status none = Unit
IsStill status (some e) = e.status ≡ status

record Settled (id : String) (status : ExchangeStatus) (rows : Exchanges) : Type 0 where
  keyed : IsKeyed exchange_id rows
  still : IsStill status (get_by exchange_id id rows)

module _ {id : String} {status : ExchangeStatus} {rows : Exchanges}
    (h : Settled id status rows) where
  Settled-update :
      (p : Exchange → Bool) (f : Exchange → Exchange)
      → ((e : Exchange) → (f e).id ≡ e.id)
      → ((e : Exchange) → e.id ≡ id → e.status ≡ status → (touched p f e).status ≡ status)
      → Settled id status (update_where p f rows)
  Settled-update p f keeps same = record {
    keyed = update-IsKeyed exchange_id p f rows keeps h.keyed;
    still =
        rw (get-update exchange_id id p f rows keeps)
          (go (get_by exchange_id id rows) (key-get exchange_id id rows) h.still);
  }
    where
      go :
          (o : Option Exchange)
          → ((e : Exchange) → o ≡ some e → e.id ≡ id)
          → IsStill status o
          → IsStill status (Option.map (touched p f) o)
      go none named e = tt
      go (some x) named e = same x (named x refl) e

  Settled-delete : (p : Exchange → Bool) → Settled id status (delete_where p rows)
  Settled-delete p = record {
    keyed = delete-IsKeyed exchange_id p rows h.keyed;
    still =
        rw (get-delete exchange_id id p rows h.keyed)
          (go (opt_test p (get_by exchange_id id rows)));
  }
    where
      go : (b : Bool) → IsStill status (if b then none else get_by exchange_id id rows)
      go true = tt
      go false = h.still

  Settled-append :
      (e : Exchange)
      → e.id ≢ id
      → get_by exchange_id e.id rows ≡ none
      → Settled id status (rows ++ e ∷ [])
  Settled-append e ne free = record {
    keyed = append-IsKeyed exchange_id rows e (absent_of_get exchange_id e.id rows free) h.keyed;
    still = rw (get-append_ne exchange_id id rows e ne) h.still;
  }

  Settled-create :
      (id' dialog title : String) (first : Option ExchangeStatus) (c u : ℕ)
      → id' ≢ id
      → Settled id status (or_same_pair rows (create id' dialog title first c u rows))
  unfolding create
  Settled-create id' dialog title first c u ne = elim (Option-cases (get_by exchange_id id' rows)) [
    | inr (e, taken) ↦ rw (taken) h
    | inl free ↦ rw (free) (Settled-append _ ne free)
  ]

  apply-Settled :
      is_live status ≡ false → (s : Change) → Spares id s → Settled id status (apply s rows)
  unfolding apply set_status
  apply-Settled final (creating id' dialog title first c u) ne =
      Settled-create id' dialog title first c u ne
  apply-Settled final (touching id' now) _ =
      unfold touch in Settled-update _ _ (λ e. refl) (λ e named same. ground arith)
  apply-Settled final (renaming id' title now) _ =
      unfold set_title in Settled-update _ _ (λ e. refl) (λ e named same. ground arith)
  apply-Settled final (reopening dialog now tasks) _ =
      unfold reopen_and_list_stranded in
      Settled-update (is_running_in dialog) (reopened now) (λ e. refl)
        (λ e named same. ground arith)
  apply-Settled final (setting id' new question now) ne =
      elim (count_where (λ e. str_eq e.id id') rows == 0)
        as (λ b. Settled id status (
          or_same rows (
            if b
            then none
            else some (update_where (λ e. str_eq e.id id') (with_status new question now) rows)))) [
              | true ↦ h
              | false ↦
                  Settled-update _ _ (λ e. refl) (λ e named same. ground (arith, eq_iff e.id id'))
            ]
  apply-Settled final (settling id' task new keep now tasks) _ =
      unfold settle_owned in
      Settled-update (λ e. str_eq e.id id' && can_settle id' task keep tasks e)
        (with_status new none now) (λ e. refl) (λ e named same. ground (arith, final))
  apply-Settled final (dropping dialog) _ = unfold delete_for_dialog in Settled-delete _

history-Settled :
    (id : String) (status : ExchangeStatus)
    → is_live status ≡ false
    → (ss : List Change) (rows : Exchanges) → All (Spares id) ss
    → Settled id status rows
    → Settled id status (history ss rows)
unfolding history
history-Settled id status final [] rows spares h = h
history-Settled id status final (s ∷ ss) rows spares h =
    history-Settled id status final ss (apply s rows) spares.1 (apply-Settled h final s spares.0)

-- An exchange that is answered, cancelled or failed is in that same status, or is gone with its
-- dialog, after any history of creations, touches, renames, recoveries, deletions of dialogs, status
-- writes to other exchanges, and settles: a run that ends late, or the recovery, brings no settled
-- exchange back to life.
pub settled_is_final :
    (id : String) (e : Exchange) (rows : Exchanges)
    → IsKeyed exchange_id rows
    → get_by exchange_id id rows ≡ some e
    → is_live e.status ≡ false
    → (ss : List Change) → All (Spares id) ss
    → IsStill e.status (get_by exchange_id id (history ss rows))
settled_is_final id e rows keyed found final ss spares =
    (history-Settled id e.status final ss rows spares
      (record { keyed = keyed; still = rw found refl })).still
