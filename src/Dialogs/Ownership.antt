-- ===== src/Dialogs/Ownership.antt =====
-- Who may settle an exchange: `_newest_task_of` and `settle_owned` of
-- core/src/octoforge_core/dialogs/store.py.
use octo_forge.Base.{
  ℕ, ◌≤◌, String, Bool, true, false, Option, none, some, List, [], ◌∷◌, ◌≡◌, refl, sym, ◌∙◌, ◌&&◌,
  str_eq, eq_iff, if◌then◌else◌, opt_test, ◌==◌, ltb, arith, All, All-weaken, select_where,
  count_where, insert_with, order_with, get_by, IsKeyed, touched, get-update, key-get, first-get,
  Bool-cases, inl, inr, insert-All, count-order, count-select,
}
use mathlib.Core.Option
use octo_forge.Tasks.Api.{Task}
use octo_forge.Tasks.Memory.{Tasks}
use octo_forge.Dialogs.Exchanges.{
  ExchangeStatus, Exchange, Exchanges, exchange_id, is_of, is_newer, first_id, newest_task_of,
  with_status, can_settle, settle_owned,
}

-- The first one of a list, if any, is at least as young as all of them.
abbrev FirstIsNewest : List Task → Type 0
FirstIsNewest [] = Unit
FirstIsNewest (t ∷ ts) = All (λ u. u.created_at ≤ t.created_at) (t ∷ ts)

newer-le : (t u : Task) → is_newer t u ≡ true → u.created_at ≤ t.created_at
newer-le t u h = ground arith

older-le : (t u : Task) → is_newer t u ≡ false → t.created_at ≤ u.created_at
older-le t u h = ground arith

insert-FirstIsNewest :
    (t : Task) (ts : List Task) → FirstIsNewest ts → FirstIsNewest (insert_with is_newer t ts)
insert-FirstIsNewest t [] h = (omega arith, tt)
insert-FirstIsNewest t (u ∷ ts) h = elim (Bool-cases (is_newer t u)) [
  | inl newer ↦ rw newer (
    omega arith,
    (newer-le t u newer, All-weaken (λ v le. omega (arith, newer-le t u newer)) ts h.1),
  )
  | inr older ↦ rw older (
    omega arith,
    insert-All (λ v. v.created_at ≤ u.created_at) is_newer t ts (older-le t u older) h.1,
  )
]

order-FirstIsNewest : (ts : List Task) → FirstIsNewest (order_with is_newer ts)
order-FirstIsNewest [] = tt
order-FirstIsNewest (t ∷ ts) =
    insert-FirstIsNewest t (order_with is_newer ts) (order-FirstIsNewest ts)

-- Of the tasks of the exchange: there is none, or one with this id is born when none is later.
abbrev pub IsNewest : String → Tasks → Option String → Type 0
IsNewest id tasks none = count_where (is_of id) tasks ≡ 0
IsNewest id tasks (some x) =
    (b : ℕ) × ((1 ≤ count_where (λ u. is_of id u && (str_eq u.id x && u.created_at == b)) tasks)
      × (count_where (λ u. is_of id u && ltb b u.created_at) tasks ≡ 0))

count-none_later :
    (b : ℕ) (ts : List Task)
    → All (λ u. u.created_at ≤ b) ts
    → count_where (λ u. ltb b u.created_at) ts ≡ 0
count-none_later b [] h = refl
count-none_later b (t ∷ ts) h = ground (arith, count-none_later b ts h.1)

-- The subquery finds no task just if the exchange has none, and else the id of one of its tasks than
-- which no task of the exchange was created later.
pub newest_task_of-IsNewest :
    (tasks : Tasks) (id : String) → IsNewest id tasks (newest_task_of tasks id)
unfolding newest_task_of
newest_task_of-IsNewest tasks id =
    go (order_with is_newer (select_where (is_of id) tasks))
      (λ q.
        count-order is_newer q (select_where (is_of id) tasks) ∙ count-select (is_of id) q tasks)
      (order-FirstIsNewest (select_where (is_of id) tasks))
  where
    all_of :
        (rows : Tasks) → count_where (λ r. is_of id r && true) rows ≡ count_where (is_of id) rows
    all_of [] = refl
    all_of (r ∷ rows) = ground (arith, all_of rows)

    go :
        (ts : List Task)
        → ((q : Task → Bool) → count_where q ts ≡ count_where (λ r. is_of id r && q r) tasks)
        → FirstIsNewest ts
        → IsNewest id tasks (first_id ts)
    go [] counts h = sym (counts (λ _. true) ∙ all_of tasks)
    go (t ∷ ts) counts h = (
      t.created_at,
      (
        rw (sym (counts (λ u. str_eq u.id t.id && u.created_at == t.created_at)))
            (ground (arith, eq_iff t.id t.id)),
        sym (counts (λ u. ltb t.created_at u.created_at))
            ∙ count-none_later t.created_at (t ∷ ts) h,
      ),
    )

-- The exchange behind any id after a settle.
pub get-settle_owned :
    (id task : String) (status : ExchangeStatus) (keep : Bool) (now : ℕ) (tasks : Tasks)
    (rows : Exchanges) (k : String)
    → get_by exchange_id k (settle_owned id task status keep now tasks rows).1
      ≡ Option.map
          (touched
            (λ e. str_eq e.id id && can_settle id task keep tasks e)
            (with_status status none now))
          (get_by exchange_id k rows)
unfolding settle_owned
get-settle_owned id task status keep now tasks rows k =
    get-update exchange_id k _ (with_status status none now) rows (λ e. refl)

-- A settle answers the settled exchange, which is then in the table under its id, exactly when the
-- exchange is there, the task is its newest one, it is live, and it does not wait for the user when
-- the settle is told to keep it then; it answers none otherwise. What it changes is that exchange,
-- and nothing when it answers none.
pub settle_owned_exact :
    (id task : String) (status : ExchangeStatus) (keep : Bool) (now : ℕ) (tasks : Tasks)
    (rows : Exchanges)
    → IsKeyed exchange_id rows
    → ((settle_owned id task status keep now tasks rows).0 ≡ (
        if opt_test (can_settle id task keep tasks) (get_by exchange_id id rows)
        then get_by exchange_id id (settle_owned id task status keep now tasks rows).1
        else none))
      × ((k : String)
          → get_by exchange_id k (settle_owned id task status keep now tasks rows).1 ≡ (
              if str_eq id k
                && opt_test (can_settle id task keep tasks) (get_by exchange_id id rows)
              then Option.map (with_status status none now) (get_by exchange_id k rows)
              else get_by exchange_id k rows))
unfolding settle_owned
settle_owned_exact id task status keep now tasks rows keyed = (
  answered_is (get_by exchange_id id rows) (key-get exchange_id id rows) _
      (first-get exchange_id id (can_settle id task keep tasks) rows keyed) _
      (get-settle_owned id task status keep now tasks rows id),
  λ k. get-settle_owned id task status keep now tasks rows k ∙ row k,
)
  where
    answered_is :
        (o : Option Exchange)
        → ((e : Exchange) → o ≡ some e → e.id ≡ id)
        → (a : Option Exchange)
        → a ≡ (if opt_test (can_settle id task keep tasks) o then o else none)
        → (after : Option Exchange)
        → after
          ≡ Option.map
              (touched
                (λ e. str_eq e.id id && can_settle id task keep tasks e)
                (with_status status none now))
              o
        → Option.map (with_status status none now) a
          ≡ (if opt_test (can_settle id task keep tasks) o then after else none)
    answered_is none named a e after f = rw e refl
    answered_is (some x) named a e after f =
        rw (e, f) (ground (arith, named x refl, eq_iff x.id id))

    one :
        (o : Option Exchange)
        → ((e : Exchange) → o ≡ some e → e.id ≡ id)
        → Option.map
            (touched
              (λ e. str_eq e.id id && can_settle id task keep tasks e)
              (with_status status none now))
            o
          ≡ (if opt_test (can_settle id task keep tasks) o
              then Option.map (with_status status none now) o
              else o)
    one none named = refl
    one (some x) named = ground (arith, named x refl, eq_iff x.id id)

    another :
        {k : String} (o : Option Exchange)
        → ((e : Exchange) → o ≡ some e → e.id ≡ k)
        → str_eq id k ≡ false
        → Option.map
            (touched
              (λ e. str_eq e.id id && can_settle id task keep tasks e)
              (with_status status none now))
            o
          ≡ o
    another none named ne = refl
    another {k} (some x) named ne = ground (arith, named x refl, eq_iff x.id id, eq_iff id k)

    row :
        (k : String)
        → Option.map
            (touched
              (λ e. str_eq e.id id && can_settle id task keep tasks e)
              (with_status status none now))
            (get_by exchange_id k rows)
          ≡ (if str_eq id k && opt_test (can_settle id task keep tasks) (get_by exchange_id id rows)
              then Option.map (with_status status none now) (get_by exchange_id k rows)
              else get_by exchange_id k rows)
    row k = elim (Bool-cases (str_eq id k)) [
      | inl same ↦
          (let e : id ≡ k = (eq_iff id k).0 same in
            rw (same, sym e) (one (get_by exchange_id id rows) (key-get exchange_id id rows)))
      | inr other ↦
          rw other (another (get_by exchange_id k rows) (key-get exchange_id k rows) other)
    ]
