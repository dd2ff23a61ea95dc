-- ===== src/Identity/Store.antt =====
-- `SqlAlchemyIdentityStore` of core/src/octoforge_core/identity/store.py. Each operation is given the
-- tables as it finds them; where another session may commit in between, it is given what its read saw
-- and the tables that its write meets. Ids and the clock are arguments, and so is the comparison of
-- two JSON values by which SQLAlchemy decides whether a row has changed.
use octo_forge.Base.{
  ℕ, String, Bool, true, false, not, Option, none, some, List, [], ◌∷◌, ◌++◌, ◌&&◌, ◌||◌, str_eq,
  opt_test, any, if◌then◌else◌, Result, ok, err, first_where, update_where, get_by,
}
use mathlib.Core.Option
use octo_forge.Json.{Members, no_members}
use octo_forge.Identity.Rows.{
  waiting, IdentityError, user_not_found, identity_taken, integrity_error, UserRow, UserIdentityRow,
  User, UserIdentity, Tables, nonempty, to_user, to_identity, user_clashes, is_account,
  identity_clashes,
}

-- `_find`
abbrev pub find : String → String → List UserIdentityRow → Option UserIdentityRow
find surface external_id rows = first_where (is_account surface external_id) rows

-- `find_by_identity`
unfoldable pub find_by_identity : String → String → Tables → Option UserIdentity
find_by_identity surface external_id s =
    Option.map to_identity (find surface external_id s.identities)

-- `resolve`
unfoldable pub resolve : String → String → Tables → Option String
resolve surface external_id s =
    Option.map (λ r. r.user_id)
      (first_where (λ r. is_account surface external_id r && r.active) s.identities)

-- `create_user`
unfoldable pub create_user : String → String → ℕ → Tables → Result IdentityError (User × Tables)
unfolding to_user
create_user email id now s =
    let row : UserRow = record {
      id = id;
      name = "";
      email = nonempty email;
      status = waiting;
      created_at = now;
    } in
    if any (user_clashes row) s.users
    then err integrity_error
    else ok (to_user row, record s { users = s.users ++ row ∷ [] })

-- `get_user`
unfoldable pub get_user : String → Tables → Result IdentityError User
unfolding to_user
get_user user_id s = elim (get_by (λ r. r.id) user_id s.users) [
  | none ↦ err user_not_found
  | some row ↦ ok (to_user row)
]

-- `details or {}`
abbrev pub or_details : Option Members → Members
or_details none = no_members
or_details (some details) = details

-- What `link` writes to an identity that it found: the columns whose values change, and `updated_at`
-- with them.
abbrev pub revived :
    (Members → Members → Bool)
    → Option Members
    → ℕ
    → UserIdentityRow
    → UserIdentityRow
    → UserIdentityRow
revived differ details now found r =
    if opt_test (λ d. differ found.details d) details
    then record r {
      active = r.active || not found.active;
      details = or_details details;
      updated_at = now;
    }
    else if found.active
    then r
    else record r { active = true; updated_at = now }

abbrev pub new_identity : String → String → String → String → Option Members → ℕ → UserIdentityRow
new_identity id user_id surface external_id details now = record {
  id = id;
  user_id = user_id;
  surface = surface;
  external_id = external_id;
  name = "";
  username = none;
  details = or_details details;
  active = true;
  created_at = now;
  updated_at = now;
}

-- `link` once it has looked for the account
unfoldable pub link_found :
    Option UserIdentityRow
    → (UserIdentityRow → UserIdentityRow → UserIdentityRow)
    → UserIdentityRow
    → Tables
    → Result IdentityError (UserIdentity × Tables)
unfolding to_identity
link_found (some found) revive new s =
    if not (str_eq found.user_id new.user_id)
    then err identity_taken
    else ok (
      to_identity (revive found found),
      record s {
        identities = update_where (λ r. str_eq r.id found.id) (revive found) s.identities;
      },
    )
link_found none revive new s =
    if any (identity_clashes new) s.identities
    then err identity_taken
    else ok (to_identity new, record s { identities = s.identities ++ new ∷ [] })

-- `link`, which looks in `seen` and commits on `s`
unfoldable pub link :
    (Members → Members → Bool)
    → String
    → String
    → String
    → Option Members
    → String
    → ℕ
    → Tables
    → Tables
    → Result IdentityError (UserIdentity × Tables)
unfolding link_found
link differ user_id surface external_id details id now seen s =
    link_found (find surface external_id seen.identities) (revived differ details now)
      (new_identity id user_id surface external_id details now) s

-- the handler of IdentityTakenError in `resolve_or_create`
abbrev pub owner_or : Option String → Result IdentityError String
owner_or none = err identity_taken
owner_or (some owner) = ok owner

-- the `try` of `resolve_or_create`, for the person just created, with the tables that it leaves
abbrev pub linked_or :
    String
    → String
    → String
    → Result IdentityError (UserIdentity × Tables)
    → Tables
    → Result IdentityError String × Tables
linked_or user_id surface external_id (ok (identity, t)) s = (ok user_id, t)
linked_or user_id surface external_id (err identity_taken) s =
    (owner_or (resolve surface external_id s), s)
linked_or user_id surface external_id (err e) s = (err e, s)

abbrev pub no_difference : Members → Members → Bool
no_difference a b = false

-- `resolve_or_create` from `link` on, once `create_user` has answered; `others` is what other sessions
-- commit between the two
unfoldable pub contacted :
    String
    → String
    → String
    → String
    → ℕ
    → (Tables → Tables)
    → Tables
    → Tables
    → Result IdentityError (User × Tables)
    → Result IdentityError String × Tables
unfolding link resolve
contacted surface external_id user_id id now others seen s (err e) = (err e, s)
contacted surface external_id user_id id now others seen s (ok (user, t)) =
    linked_or user_id surface external_id
      (link no_difference user_id surface external_id none id now seen (others t)) (others t)

-- `resolve_or_create` once its first lookup is done
unfoldable pub first_contact :
    Option String
    → String
    → String
    → String
    → String
    → ℕ
    → (Tables → Tables)
    → Tables
    → Tables
    → Result IdentityError String × Tables
unfolding create_user contacted
first_contact (some found) surface external_id user_id id now others seen s = (ok found, s)
first_contact none surface external_id user_id id now others seen s =
    contacted surface external_id user_id id now others seen s (create_user "" user_id now s)

-- `resolve_or_create`, whose first lookup reads `known`
unfoldable pub resolve_or_create :
    String
    → String
    → String
    → String
    → ℕ
    → (Tables → Tables)
    → Tables
    → Tables
    → Tables
    → Result IdentityError String × Tables
unfolding first_contact resolve
resolve_or_create surface external_id user_id id now others known seen s =
    first_contact (resolve surface external_id known) surface external_id user_id id now others seen
      s
