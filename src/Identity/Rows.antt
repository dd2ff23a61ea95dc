-- ===== src/Identity/Rows.antt =====
-- The tables of core/src/octoforge_core/identity/models.py and the types of identity/api.py. The column
-- `status` holds the text of a `UserStatus`. The foreign key on `user_id` is left out.
use octo_forge.Base.{
  ℕ, String, Bool, true, false, Option, none, some, List, ◌&&◌, ◌||◌, str_eq, opt_test,
  if◌then◌else◌,
}
use octo_forge.Json.{Members}

pub data UserStatus : Type 0 where
  waiting active banned : UserStatus

abbrev pub is_waiting : UserStatus → Bool
is_waiting waiting = true
is_waiting _ = false

abbrev pub is_active : UserStatus → Bool
is_active active = true
is_active _ = false

abbrev pub same_status : UserStatus → UserStatus → Bool
same_status waiting waiting = true
same_status active active = true
same_status banned banned = true
same_status _ _ = false

pub data IdentityError : Type 0 where
  user_not_found identity_not_found identity_taken integrity_error : IdentityError

pub record UserRow : Type 0 where
  pub id : String
  pub name : String
  pub email : Option String
  pub status : UserStatus
  pub created_at : ℕ

pub record UserIdentityRow : Type 0 where
  pub id : String
  pub user_id : String
  pub surface : String
  pub external_id : String
  pub name : String
  pub username : Option String
  pub details : Members
  pub active : Bool
  pub created_at : ℕ
  pub updated_at : ℕ

pub record User : Type 0 where
  pub id : String
  pub name : String
  pub email : String
  pub status : UserStatus
  pub created_at : ℕ

pub record UserIdentity : Type 0 where
  pub user_id : String
  pub surface : String
  pub external_id : String
  pub name : String
  pub username : Option String
  pub details : Members
  pub active : Bool
  pub created_at : ℕ
  pub updated_at : ℕ

-- the two tables
pub record Tables : Type 0 where
  pub users : List UserRow
  pub identities : List UserIdentityRow

-- `value or ""`
abbrev pub or_empty : Option String → String
or_empty none = ""
or_empty (some s) = s

-- `email or None`
abbrev pub nonempty : String → Option String
nonempty s = if str_eq s "" then none else some s

-- `_to_user`
unfoldable pub to_user : UserRow → User
to_user row = record {
  id = row.id;
  name = row.name;
  email = or_empty row.email;
  status = row.status;
  created_at = row.created_at;
}

-- `_to_identity`
unfoldable pub to_identity : UserIdentityRow → UserIdentity
to_identity row = record {
  user_id = row.user_id;
  surface = row.surface;
  external_id = row.external_id;
  name = row.name;
  username = row.username;
  details = row.details;
  active = row.active;
  created_at = row.created_at;
  updated_at = row.updated_at;
}

-- the constraints on `users`: the primary key, and the email where there is one
abbrev pub user_clashes : UserRow → UserRow → Bool
user_clashes new r =
    str_eq r.id new.id || opt_test (λ e. opt_test (λ f. str_eq f e) r.email) new.email

-- `surface == … and external_id == …`
abbrev pub is_account : String → String → UserIdentityRow → Bool
is_account surface external_id r = str_eq r.surface surface && str_eq r.external_id external_id

-- the constraints on `user_identities`: the primary key, and `uq_identity_account`
abbrev pub identity_clashes : UserIdentityRow → UserIdentityRow → Bool
identity_clashes new r = str_eq r.id new.id || is_account new.surface new.external_id r
