-- ===== src/Net/Reads.antt =====
-- What the readers of core/src/octoforge_core/net/response_memory.py get.
use octo_forge.Base.{
  ℕ, String, Option, none, some, str_eq, if◌then◌else◌, Result, ok, err, get_by, IsKeyed, ◌≡◌, refl,
  arith, get-delete, opt_test,
}
use octo_forge.Net.Responses.{
  ResponseError, not_found, StoredResponse, StoredDocument, Responses, key_of, got, get,
  to_document, fetched, fetch, drop_scope,
}

-- the answer of a call without the dictionary that it leaves
abbrev pub answer :
    Result ResponseError (StoredDocument × Responses) → Result ResponseError StoredDocument
answer (err e) = err e
answer (ok (document, items)) = ok document

-- When a task ends, exactly its documents are forgotten: a reference to one of them is refused from then
-- on, and any other reference, of whatever owner, is answered as before. The ids are unique.
pub fetch-drop_scope :
    (owner_id ref scope : String) (now : ℕ) (items : Responses)
    → IsKeyed (λ r. r.id) items
    → answer (fetch owner_id ref now (drop_scope scope items)) ≡ (
        if opt_test (λ r. str_eq r.scope scope) (get_by (λ r. r.id) (key_of ref) items)
        then err not_found
        else answer (fetch owner_id ref now items))
unfolding fetch get got to_document drop_scope
fetch-drop_scope owner_id ref scope now items k =
    rw (get-delete (λ r. r.id) (key_of ref) (λ r. str_eq r.scope scope) items k)
      (go (get_by (λ r. r.id) (key_of ref) items))
  where
    go :
        (o : Option StoredResponse)
        → answer (
            fetched (
              got
                (if opt_test (λ r. str_eq r.scope scope) o then none else o)
                owner_id
                now
                (drop_scope scope items)))
          ≡ (if opt_test (λ r. str_eq r.scope scope) o
              then err not_found
              else answer (fetched (got o owner_id now items)))
    go none = refl
    go (some r) = ground arith
