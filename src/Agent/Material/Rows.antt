-- ===== src/Agent/Material/Rows.antt =====
-- The rows of exchanges that `_handle_promote` of core/src/octoforge_core/agent/runner.py writes, read
-- back by their id.
use octo_forge.Base.{
  ℕ, String, true, false, none, some, [], ◌∷◌, str_eq, eq_iff, ◌==◌, update_where, count_where,
  get_by, get-update, ◌≡◌, refl, ◌∙◌, arith, inl, inr, Bool-cases,
}
use octo_forge.Dialogs.Exchanges.{
  ExchangeStatus, Exchange, Exchanges, exchange_id, get, touch, set_status, with_status,
}
use octo_forge.Agent.Material.{status_set}

count_found :
    (id : String) (rows : Exchanges) (e : Exchange)
    → get_by exchange_id id rows ≡ some e
    → (count_where (λ x. str_eq x.id id) rows == 0) ≡ false
count_found id [] e h = absurd (ground (arith, h))
count_found id (x ∷ rows) e h = ground (arith, count_found id rows e)

pub found_id :
    (id : String) (rows : Exchanges) (e : Exchange)
    → get_by exchange_id id rows ≡ some e
    → str_eq e.id id ≡ true
found_id id [] e h = absurd (ground (arith, h))
found_id id (x ∷ rows) e h = ground (arith, found_id id rows e)

get-update_other :
    (id other : String) (f : Exchange → Exchange) (rows : Exchanges)
    → ((e : Exchange) → (f e).id ≡ e.id)
    → str_eq other id ≡ false
    → get_by exchange_id id (update_where (λ x. str_eq x.id other) f rows)
      ≡ get_by exchange_id id rows
get-update_other id other f [] keeps ne = refl
get-update_other id other f (x ∷ rows) keeps ne = ground (
  arith,
  keeps x,
  eq_iff x.id other,
  eq_iff x.id id,
  eq_iff (f x).id id,
  eq_iff other id,
  get-update_other id other f rows keeps ne,
)

pub get-status_set :
    (id : String) (status : ExchangeStatus) (now : ℕ) (rows : Exchanges) (e : Exchange)
    → get id rows ≡ some e
    → get id (status_set id status now rows) ≡ some (with_status status none now e)
unfolding get set_status
get-status_set id status now rows e h = rw (count_found id rows e h) (
    get-update exchange_id id (λ x. str_eq x.id id) (with_status status none now) rows (λ r. refl)
    ∙ rw h (ground (arith, found_id id rows e h)))

pub get-status_other :
    (id other : String) (status : ExchangeStatus) (now : ℕ) (rows : Exchanges)
    → str_eq other id ≡ false
    → get id (status_set other status now rows) ≡ get id rows
unfolding get set_status
get-status_other id other status now rows ne =
    elim (Bool-cases (count_where (λ x. str_eq x.id other) rows == 0)) [
      | inl e ↦ rw e refl
      | inr e ↦ rw e (get-update_other id other (with_status status none now) rows (λ x. refl) ne)
    ]

pub get-touch_other :
    (id other : String) (now : ℕ) (rows : Exchanges)
    → str_eq other id ≡ false
    → get id (touch other now rows) ≡ get id rows
unfolding get touch
get-touch_other id other now rows ne =
    get-update_other id other (λ e. record e { updated_at = now }) rows (λ x. refl) ne
