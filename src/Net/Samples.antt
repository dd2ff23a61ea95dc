-- ===== src/Net/Samples.antt =====
-- The properties of the documents in memory at a concrete dictionary.
use octo_forge.Base.{
  ℕ, String, not, none, [], ◌∷◌, ◌++◌, eq_iff, ◌≡◌, ◌≢◌, ◌≤◌, refl, ◌⊎◌, arith, select_where,
  get_by, All,
}
use octo_forge.Net.Responses.{StoredResponse, Responses, total_chars, is_of, store}
use octo_forge.Net.Budget.{IsNewest, store_within_budget}
use octo_forge.Net.Oldest.{dropped_are_oldest}

abbrev page : String → String → ℕ → StoredResponse
page id body at = record {
  id = id;
  owner_id = "u";
  scope = "t";
  kind = "text";
  source = "s";
  body = body;
  document = none;
  last_access = at;
}

abbrev held : Responses
held = page "a" "long" 3 ∷ page "b" "text" 2 ∷ []

keyed : ◌≢◌ {A = String} "b" "a"
keyed e = ground (arith, (eq_iff "b" "a").1 e)

newest : IsNewest (page "c" "more" 9) held
newest = (
  (λ e. ground (arith, (eq_iff "a" "c").1 e), omega arith),
  ((λ e. ground (arith, (eq_iff "b" "c").1 e), omega arith), tt),
)

store_within_budget_example :
    (rest : Responses) × (store (page "c" "more" 9) 9 held ≡ rest ++ page "c" "more" 9 ∷ [])
    × ((total_chars (select_where (is_of "u") (rest ++ page "c" "more" 9 ∷ [])) ≤ 9)
        ⊎ (select_where (is_of "u") rest ≡ []))
    × (select_where (λ r. not (is_of "u" r)) rest ≡ select_where (λ r. not (is_of "u" r)) held)
store_within_budget_example =
    store_within_budget (page "c" "more" 9) 9 held ((keyed, tt), (tt, tt)) newest

gone : get_by (λ r. r.id) "b" (store (page "c" "more" 9) 9 held) ≡ none
unfolding store
gone = refl

dropped_are_oldest_example :
    All (λ r. 2 ≤ r.last_access) (select_where (is_of "u") (store (page "c" "more" 9) 9 held))
dropped_are_oldest_example =
    dropped_are_oldest (page "c" "more" 9) 9 held "b" (page "b" "text" 2) ((keyed, tt), (tt, tt))
      newest refl gone
