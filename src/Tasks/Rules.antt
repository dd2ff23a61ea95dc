-- ===== src/Tasks/Rules.antt =====
-- When two lists of tasks hold the same tasks, and the changes that keep it so.
use mathlib.Core.Option
use octo_forge.Base.{
  String, Bool, not, none, some, [], ◌∷◌, ◌++◌, ◌≡◌, ◌≢◌, refl, sym, ap, ◌∙◌, ◌&&◌, inl, inr,
  str_eq, eq_iff, arith, All, update_where, delete_where, count_where, get_by, IsKeyed, touched,
  get-update, get-delete, absent_behind, absent_of_get, key-get, update-IsKeyed, delete-IsKeyed,
  append-IsKeyed, get-append, count-append, count-update, count-delete, Bool-cases,
}
use octo_forge.Tasks.Api.{Task}
use octo_forge.Tasks.Memory
use octo_forge.Tasks.Memory.{Tasks, task_id}

-- Both lists are keyed by the task's id, answer every lookup alike, and hold as many tasks of every
-- kind: they differ in order only.
pub record Same (m s : Tasks) : Type 0 where
  pub keyed_m : IsKeyed task_id m
  pub keyed_s : IsKeyed task_id s
  pub lookups : (id : String) → get_by task_id id m ≡ get_by task_id id s
  pub counts : (q : Task → Bool) → count_where q m ≡ count_where q s

module _ {m s : Tasks} (same : Same m s) where
  pub Same-update :
      (p : Task → Bool) (f : Task → Task)
      → ((t : Task) → (f t).id ≡ t.id)
      → Same (update_where p f m) (update_where p f s)
  Same-update p f keeps = record {
    keyed_m = update-IsKeyed task_id p f m keeps same.keyed_m;
    keyed_s = update-IsKeyed task_id p f s keeps same.keyed_s;
    lookups = λ id.
        get-update task_id id p f m keeps
        ∙ ap (Option.map (touched p f)) (same.lookups id)
        ∙ sym (get-update task_id id p f s keeps);
    counts = λ q.
        count-update p q f m ∙ same.counts (λ r. q (touched p f r)) ∙ sym (count-update p q f s);
  }

  pub Same-append : (t : Task) → get_by task_id t.id m ≡ none → Same (m ++ t ∷ []) (s ++ t ∷ [])
  Same-append t fresh = record {
    keyed_m = append-IsKeyed task_id m t (absent_of_get task_id t.id m fresh) same.keyed_m;
    keyed_s =
        append-IsKeyed task_id s t (absent_of_get task_id t.id s (sym (same.lookups t.id) ∙ fresh))
          same.keyed_s;
    lookups = λ id. rw (get-append task_id id m t, get-append task_id id s t, same.lookups id);
    counts =
        λ q. omega (arith, count-append q m (t ∷ []), count-append q s (t ∷ []), same.counts q);
  }

  pub Same-delete : (p : Task → Bool) → Same (delete_where p m) (delete_where p s)
  Same-delete p = record {
    keyed_m = delete-IsKeyed task_id p m same.keyed_m;
    keyed_s = delete-IsKeyed task_id p s same.keyed_s;
    lookups = λ id. rw (
      get-delete task_id id p m same.keyed_m,
      get-delete task_id id p s same.keyed_s,
      same.lookups id,
    );
    counts =
        λ q. count-delete p q m ∙ same.counts (λ r. not (p r) && q r) ∙ sym (count-delete p q s);
  }

update-absent :
    (id : String) (f : Task → Task) (rows : Tasks)
    → All (λ t. t.id ≢ id) rows
    → update_where (λ t. str_eq t.id id) f rows ≡ rows
update-absent id f [] h = refl
update-absent id f (r ∷ rows) h = ground (arith, eq_iff r.id id, update-absent id f rows h.1)

-- Writing back a changed task under its id is an UPDATE on that id.
pub add-update :
    (id : String) (f : Task → Task) (rows : Tasks) (t : Task)
    → ((u : Task) → (f u).id ≡ u.id)
    → IsKeyed task_id rows
    → get_by task_id id rows ≡ some t
    → Memory.add (f t) rows ≡ update_where (λ u. str_eq u.id id) f rows
unfolding Memory.add
add-update id f [] t keeps h found = cc
add-update id f (r ∷ rows) t keeps h found = elim (Bool-cases (str_eq r.id id)) [
  | inl same ↦ ground (
    arith,
    same,
    found,
    keeps r,
    eq_iff r.id id,
    eq_iff r.id (f r).id,
    update-absent id f rows (absent_behind task_id id r rows h same),
  )
  | inr other ↦ ground (
    arith,
    other,
    found,
    keeps t,
    key-get task_id id rows t,
    eq_iff r.id id,
    eq_iff r.id (f t).id,
    add-update id f rows t keeps h.1,
  )
]

-- A task under a new id goes to the end.
pub add-append :
    (t : Task) (rows : Tasks) → get_by task_id t.id rows ≡ none → Memory.add t rows ≡ rows ++ t ∷ []
unfolding Memory.add
add-append t [] h = refl
add-append t (r ∷ rows) h = ground (arith, add-append t rows)
