-- ===== src/Tariffs/Plans.antt =====
-- What `put` and `delete` of core/src/octoforge_core/tariffs/store.py do to the default plan and to the
-- plans that users are bound to.
use octo_forge.Base.{
  ℕ, ◌≤◌, String, Bool, true, false, Option, none, some, List, [], ◌∷◌, ◌++◌, ◌≡◌, ◌≢◌, refl, ap,
  ◌&&◌, str_eq, eq_iff, if◌then◌else◌, is_none, opt_test, ◌==◌, any, arith, Result, ok, err, ◌>>=◌,
  update_where, delete_where, count_where, get_by, IsKeyed, count-get, count-append, get-delete,
  key-get, append-IsKeyed, absent_of_get, ==_iff, Bool-cases, Option-cases, inl, inr,
}
use octo_forge.Tariffs.Catalog.{
  TariffError, not_found, in_use, integrity_error, ℤ, TariffLimits, Tariff, UserTariff, Catalog,
  tariff_id, tariff_code, find_tariff, replaced, demote_others, new_tariff, put_rows, put, delete,
  normalized,
}

abbrev pub defaults : List Tariff → ℕ
defaults rows = count_where (λ t. t.is_default) rows

count-code :
    (code : String) (rows : List Tariff)
    → IsKeyed tariff_code rows
    → count_where (λ t. str_eq t.code code && true) rows ≤ 1
count-code code rows keyed =
    rw (count-get tariff_code code (λ _. true) rows keyed)
      (one (opt_test (λ _. true) (get_by tariff_code code rows)))
  where
    one : (b : Bool) → (if b then 1 else 0) ≤ 1
    one true = omega arith
    one false = omega arith

-- behind the demotion only rows under the code are default
defaults-demoted :
    (code : String) (rows : List Tariff)
    → defaults (demote_others true code rows) ≤ count_where (λ t. str_eq t.code code && true) rows
defaults-demoted code [] = omega arith
defaults-demoted code (t ∷ rows) = ground (arith, defaults-demoted code rows)

count-code_replaced :
    (code title : String) (features : List String) (caps : TariffLimits ℕ) (d : Bool) (now : ℕ)
    (rows : List Tariff)
    → count_where
        (λ t. str_eq t.code code && true)
        (update_where (λ r. str_eq r.code code) (replaced title features caps d now) rows)
      ≡ count_where (λ t. str_eq t.code code && true) rows
count-code_replaced code title features caps d now [] = refl
count-code_replaced code title features caps d now (t ∷ rows) =
    ground (arith, count-code_replaced code title features caps d now rows)

defaults-replaced :
    (code title : String) (features : List String) (caps : TariffLimits ℕ) (now : ℕ)
    (rows : List Tariff)
    → defaults
        (update_where (λ r. str_eq r.code code) (replaced title features caps false now) rows)
      ≤ defaults rows
defaults-replaced code title features caps now [] = omega arith
defaults-replaced code title features caps now (t ∷ rows) =
    ground (arith, defaults-replaced code title features caps now rows)

abbrev AtMostOne : Result TariffError (Tariff × List Tariff) → Type 0
AtMostOne (ok r) = defaults r.1 ≤ 1
AtMostOne (err e) = Unit

module _ (code title : String) (features : List String) (caps : TariffLimits ℕ) (now : ℕ)
    (rows : List Tariff) (keyed : IsKeyed tariff_code rows) (one : defaults rows ≤ 1) where
  append-one :
      (id : String) (d : Bool)
      → get_by tariff_code code rows ≡ none
      → defaults (demote_others d code (rows ++ new_tariff id code title features caps d now ∷ []))
        ≤ 1
  append-one id true free =
      let t = new_tariff id code title features caps true now in
      omega (
        arith,
        defaults-demoted code (rows ++ t ∷ []),
        count-code code (rows ++ t ∷ [])
            (append-IsKeyed tariff_code rows t (absent_of_get tariff_code code rows free) keyed),
      )
  append-one id false free = omega (
    arith,
    count-append (λ t. t.is_default) rows (new_tariff id code title features caps false now ∷ []),
    one,
  )

  replace-one :
      (d : Bool)
      → defaults (
          demote_others d code
            (update_where (λ r. str_eq r.code code) (replaced title features caps d now) rows))
        ≤ 1
  replace-one true = omega (
    arith,
    defaults-demoted code
        (update_where (λ r. str_eq r.code code) (replaced title features caps true now) rows),
    count-code_replaced code title features caps true now rows,
    count-code code rows keyed,
  )
  replace-one false = omega (arith, defaults-replaced code title features caps now rows, one)

  put_rows-one :
      (id : String) (d : Bool) → AtMostOne (put_rows id code title features caps d now rows)
  unfolding put_rows find_tariff
  put_rows-one id d = elim (Option-cases (get_by tariff_code code rows)) [
    | inl free ↦ rw (free, AtMostOne) (added (is_none (get_by tariff_id id rows)) free)
    | inr (t, found) ↦ rw (found, AtMostOne) (replace-one d)
  ]
    where
      added :
          (b : Bool)
          → get_by tariff_code code rows ≡ none
          → AtMostOne (
              if b
              then ok (
                new_tariff id code title features caps d now,
                demote_others d code (rows ++ new_tariff id code title features caps d now ∷ []),
              )
              else err integrity_error)
      added true free = append-one id d free
      added false free = tt

abbrev pub KeepsOne : Result TariffError (Tariff × Catalog) → Type 0
KeepsOne (ok r) = defaults r.1.tariffs ≤ 1
KeepsOne (err e) = Unit

-- A put, whether it creates a plan or replaces one, and whether that is to be the default plan,
-- leaves at most one default plan in a catalog that had at most one; codes being unique.
pub put_one_default :
    (id code title : String) (features : List String) (limits : TariffLimits ℤ) (d : Bool) (now : ℕ)
    (cat : Catalog)
    → IsKeyed tariff_code cat.tariffs
    → defaults cat.tariffs ≤ 1
    → KeepsOne (put id code title features limits d now cat)
unfolding put
put_one_default id code title features limits d now cat keyed one = validated (normalized limits)
  where
    stored :
        (r : Result TariffError (Tariff × List Tariff))
        → AtMostOne r
        → KeepsOne (r >>= λ r. ok (r.0, record cat { tariffs = r.1 }))
    stored (ok r) h = h
    stored (err e) h = tt

    validated :
        (l : Result TariffError (TariffLimits ℕ))
        → KeepsOne (
            l >>= λ caps. put_rows id code title features caps d now cat.tariffs >>= λ r.
            ok (r.0, record cat { tariffs = r.1 }))
    validated (err e) = tt
    validated (ok caps) =
        stored (put_rows id code title features caps d now cat.tariffs)
          (put_rows-one code title features caps now cat.tariffs keyed one id d)

abbrev pub KeepsPlans : Catalog → String → Result TariffError Catalog → Type 0
KeepsPlans cat k (ok new) =
    (any (λ b. str_eq b.tariff_id k) cat.bindings ≡ true
      → get_by tariff_id k new.tariffs ≡ get_by tariff_id k cat.tariffs)
    × (new.bindings ≡ cat.bindings)
KeepsPlans cat k (err e) = Unit

any-count :
    (p : UserTariff → Bool) (rows : List UserTariff) → count_where p rows ≡ 0 → any p rows ≡ false
any-count p [] h = refl
any-count p (r ∷ rows) h = ground (arith, any-count p rows)

-- Deleting a plan takes no plan away from a user: the plan of every binding is as before, and so are
-- the bindings.
pub delete-KeepsPlans :
    (code : String) (cat : Catalog) (k : String)
    → IsKeyed tariff_id cat.tariffs
    → KeepsPlans cat k (delete code cat)
unfolding delete
delete-KeepsPlans code cat k keyed = go (find_tariff code cat.tariffs)
  where
    kept :
        (t : Tariff)
        → count_where (λ b. str_eq b.tariff_id t.id) cat.bindings ≡ 0
        → any (λ b. str_eq b.tariff_id k) cat.bindings ≡ true
        → get_by tariff_id k (delete_where (λ r. str_eq r.id t.id) cat.tariffs)
          ≡ get_by tariff_id k cat.tariffs
    kept t unused bound =
        rw (get-delete tariff_id k (λ r. str_eq r.id t.id) cat.tariffs keyed)
          (stays (get_by tariff_id k cat.tariffs) (key-get tariff_id k cat.tariffs))
      where
        other : t.id ≢ k
        other e = ground (
          arith,
          bound,
          any-count (λ b. str_eq b.tariff_id t.id) cat.bindings unused,
          ap (λ x. any (λ b. str_eq b.tariff_id x) cat.bindings) e,
        )

        stays :
            (o : Option Tariff)
            → ((r : Tariff) → o ≡ some r → r.id ≡ k)
            → (if opt_test (λ r. str_eq r.id t.id) o then none else o) ≡ o
        stays none named = refl
        stays (some r) named = ground (arith, named r refl, eq_iff r.id t.id, other)

    go :
        (o : Option Tariff)
        → KeepsPlans cat k (elim o as (λ _. Result TariffError Catalog) [
          | none ↦ err not_found
          | some t ↦
              if count_where (λ b. str_eq b.tariff_id t.id) cat.bindings == 0
              then ok (record cat { tariffs = delete_where (λ r. str_eq r.id t.id) cat.tariffs })
              else err in_use
        ])
    go none = tt
    go (some t) = elim (Bool-cases (count_where (λ b. str_eq b.tariff_id t.id) cat.bindings == 0)) [
      | inl unused ↦ rw unused (kept t ((==_iff _ _).0 unused), refl)
      | inr used ↦ rw used tt
    ]
