-- ===== src/Identity/Manage.antt =====
-- The operations of core/src/octoforge_core/identity/store.py on an account that is there: it is moved,
-- revoked, or gets another profile.
use octo_forge.Base.{
  ℕ, String, Bool, true, false, not, Option, none, some, ◌&&◌, ◌||◌, str_eq, opt_test, is_none, any,
  if◌then◌else◌, Result, ok, err, first_where, update_where,
}
use octo_forge.Identity.Rows.{
  IdentityError, identity_not_found, identity_taken, integrity_error, UserIdentityRow, UserIdentity,
  Tables, to_identity, is_account,
}
use octo_forge.Identity.Store.{find}

-- `reseat` once it has read the row to move
unfoldable pub move :
    Option UserIdentityRow → String → ℕ → Tables → Result IdentityError (UserIdentity × Tables)
unfolding to_identity
move none external_id now s = err identity_not_found
move (some row) external_id now s =
    let moved = λ (r : UserIdentityRow). record r {
      external_id = external_id;
      active = true;
      updated_at = now;
    } in
    if any (λ r. is_account row.surface external_id r && not (str_eq r.id row.id)) s.identities
    then err integrity_error
    else ok (
      to_identity (moved row),
      record s { identities = update_where (λ r. str_eq r.id row.id) moved s.identities },
    )

-- `reseat`, a transaction of its own
unfoldable pub reseat :
    String → String → String → ℕ → Tables → Result IdentityError (UserIdentity × Tables)
unfolding move
reseat surface user_id external_id now s =
    if opt_test (λ taken. not (str_eq taken.user_id user_id))
      (find surface external_id s.identities)
    then err identity_taken
    else move (first_where (λ r. str_eq r.surface surface && str_eq r.user_id user_id) s.identities)
        external_id now s

-- `deactivate`
unfoldable pub deactivate : String → String → ℕ → Tables → Tables
deactivate surface external_id now s = record s {
  identities =
      update_where (is_account surface external_id)
        (λ r. record r { active = false; updated_at = now }) s.identities;
}

-- `identity.name != name or identity.username != username`
abbrev pub is_renamed : String → Option String → UserIdentityRow → Bool
is_renamed name none r = not (str_eq r.name name) || not (is_none r.username)
is_renamed name (some username) r =
    not (str_eq r.name name) || not (opt_test (λ u. str_eq u username) r.username)

-- `update_profile` once it has looked for the account
unfoldable pub profiled : Option UserIdentityRow → String → Option String → ℕ → Tables → Tables
profiled none name username now s = s
profiled (some identity) name username now s =
    let mirror =
      λ (r : UserIdentityRow). record r { name = name; username = username; updated_at = now } in
    record s {
      users =
          (if str_eq name ""
            then s.users
            else update_where (λ r. str_eq r.id identity.user_id && str_eq r.name "")
                (λ r. record r { name = name }) s.users);
      identities =
          (if is_renamed name username identity
            then update_where (λ r. str_eq r.id identity.id) mirror s.identities
            else s.identities);
    }

-- `update_profile`
unfoldable pub update_profile : String → String → String → Option String → ℕ → Tables → Tables
unfolding profiled
update_profile surface external_id name username now s =
    profiled (find surface external_id s.identities) name username now s
