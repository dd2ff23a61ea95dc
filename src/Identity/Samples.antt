-- ===== src/Identity/Samples.antt =====
-- The properties of people and accounts at concrete tables.
use octo_forge.Base.{
  String, true, false, none, some, [], ◌∷◌, ◌≡◌, refl, ok, err, ◌⊎◌, arith, length, ◌+◌,
}
use octo_forge.Json.{no_members}
use octo_forge.Identity.Rows.{waiting, identity_taken, UserRow, UserIdentityRow, Tables, to_user}
use octo_forge.Identity.Store.{resolve, create_user, resolve_or_create}
use octo_forge.Identity.Manage.{deactivate}
use octo_forge.Identity.Admission.{try_activate}
use octo_forge.Identity.Belongs.{owner_of}
use octo_forge.Identity.Steps.{created, revoked, activated, owner_kept}
use octo_forge.Identity.Cap.{empty, next, IsCapped, Reached-IsCapped}
use octo_forge.Identity.Contacts.{same_person}
use octo_forge.Identity.Revoked.{revoked_leaves_person}

abbrev person : String → UserRow
person id = record { id = id; name = ""; email = none; status = waiting; created_at = 5 }

abbrev account : String → UserIdentityRow
account user_id = record {
  id = "i";
  user_id = user_id;
  surface = "telegram";
  external_id = "7";
  name = "";
  username = none;
  details = no_members;
  active = true;
  created_at = 6;
  updated_at = 6;
}

abbrev nobody : Tables
nobody = record { users = []; identities = [] }

abbrev one : Tables
one = record { users = person "u" ∷ []; identities = account "u" ∷ [] }

abbrev shut : Tables
shut = record { users = person "u" ∷ []; identities = record (account "u") { active = false } ∷ [] }

owner_kept_example :
    (owner_of "telegram" "7" (deactivate "telegram" "7" 9 one).identities ≡ some "u")
    ⊎ (owner_of "telegram" "7" (deactivate "telegram" "7" 9 one).identities ≡ none)
owner_kept_example = owner_kept "telegram" "7" "u" (revoked "telegram" "7" 9 one) (tt, tt) refl

made :
    create_user "" "v" 9 one
    ≡ ok (
      to_user (record (person "v") { created_at = 9 }),
      record one { users = person "u" ∷ record (person "v") { created_at = 9 } ∷ [] },
    )
unfolding create_user
made = refl

same_person_example :
    resolve_or_create "telegram" "7" "v" "j" 9 (λ x. x) nobody nobody one
    ≡ (ok "u", record one { users = person "u" ∷ record (person "v") { created_at = 9 } ∷ [] })
same_person_example =
    same_person "telegram" "7" "v" "j" "u" 9 (λ x. x) nobody nobody one
      (to_user (record (person "v") { created_at = 9 }))
      (record one { users = person "u" ∷ record (person "v") { created_at = 9 } ∷ [] }) unknown made
      tt used
  where
    unknown : resolve "telegram" "7" nobody ≡ none
    unknown = unfold resolve in refl

    used :
        resolve "telegram" "7"
          (record one { users = person "u" ∷ record (person "v") { created_at = 9 } ∷ [] })
        ≡ some "u"
    used = unfold resolve in refl

made_again :
    create_user "" "v" 9 shut
    ≡ ok (
      to_user (record (person "v") { created_at = 9 }),
      record shut { users = person "u" ∷ record (person "v") { created_at = 9 } ∷ [] },
    )
unfolding create_user
made_again = refl

nobody_enters : resolve "telegram" "7" shut ≡ none
unfolding resolve
nobody_enters = refl

revoked_leaves_person_example :
    (resolve_or_create "telegram" "7" "v" "j" 9 (λ x. x) shut shut shut ≡ (
      err identity_taken,
      record shut { users = person "u" ∷ record (person "v") { created_at = 9 } ∷ [] },
    ))
    × (shut.identities ≡ shut.identities)
    × (length (person "u" ∷ record (person "v") { created_at = 9 } ∷ []) ≡ length shut.users + 1)
revoked_leaves_person_example =
    revoked_leaves_person "telegram" "7" "v" "j" 9 shut (record (account "u") { active = false })
      (to_user (record (person "v") { created_at = 9 }))
      (record shut { users = person "u" ∷ record (person "v") { created_at = 9 } ∷ [] }) refl
      nobody_enters (refl, tt) made_again

made_first :
    create_user "" "v" 9 nobody
    ≡ ok (
      to_user (record (person "v") { created_at = 9 }),
      record { users = record (person "v") { created_at = 9 } ∷ []; identities = [] },
    )
unfolding create_user
made_first = refl

Reached-IsCapped_example :
    IsCapped 1
      (try_activate "v"
        (some 1)
        (record { users = record (person "v") { created_at = 9 } ∷ []; identities = [] })).1
Reached-IsCapped_example = Reached-IsCapped (
    next
      (next (empty nobody refl)
        (created "" "v" 9 nobody (to_user (record (person "v") { created_at = 9 })) _ made_first)
        tt)
      (activated "v" (some 1) _) (omega arith))
