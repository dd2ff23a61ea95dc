-- ===== src/Identity/Admission.antt =====
-- Who may talk: the statuses in core/src/octoforge_core/identity/store.py, its listings for the
-- operator, and `AccessService` of identity/service.py. `try_activate` runs alone: the advisory lock
-- and the single writer of SQLite see to that.
use octo_forge.Base.{
  ℕ, String, Bool, true, Option, none, some, List, ◌&&◌, not, str_eq, ltb, leb, ◌==◌, if◌then◌else◌,
  map, Result, ok, err, ◌>>=◌, str_leb, select_where, update_where, count_where, order_with, get_by,
  is_none,
}
use octo_forge.Identity.Rows.{
  UserStatus, waiting, active, is_waiting, is_active, same_status, IdentityError, user_not_found,
  UserRow, UserIdentityRow, User, UserIdentity, Tables, to_user, to_identity,
}
use octo_forge.Identity.Store.{get_user}

-- `set_status`
unfoldable pub set_status : String → UserStatus → Tables → Result IdentityError Tables
set_status user_id status s =
    if is_none (get_by (λ r. r.id) user_id s.users)
    then err user_not_found
    else ok (record s {
      users = update_where (λ r. str_eq r.id user_id) (λ r. record r { status = status }) s.users;
    })

-- `active_count < max_active`, where there is a limit
abbrev pub has_slot : Option ℕ → List UserRow → Bool
has_slot none users = true
has_slot (some max_active) users = ltb (count_where (λ r. is_active r.status) users) max_active

-- `try_activate`
unfoldable pub try_activate : String → Option ℕ → Tables → Bool × Tables
try_activate user_id max_active s =
    let slot = has_slot max_active s.users in
    let may_activate = λ (r : UserRow). str_eq r.id user_id && (is_waiting r.status && slot) in
    (
      count_where may_activate s.users == 1,
      record s { users = update_where may_activate (λ r. record r { status = active }) s.users },
    )

-- `AccessService.admit` for a person who has been read
unfoldable pub admitted : User → Option ℕ → Tables → UserStatus × Tables
unfolding try_activate
admitted user max_active s =
    if not (is_waiting user.status)
    then (user.status, s)
    else if (try_activate user.id max_active s).0
    then (active, (try_activate user.id max_active s).1)
    else (waiting, (try_activate user.id max_active s).1)

-- `AccessService.admit`, with what the limit's reader answers
unfoldable pub admit : String → Option ℕ → Tables → Result IdentityError (UserStatus × Tables)
unfolding admitted get_user
admit user_id max_active s = get_user user_id s >>= λ user. ok (admitted user max_active s)

-- `count_by_status`
unfoldable pub count_by_status : Tables → UserStatus → ℕ
count_by_status s status = count_where (λ r. same_status status r.status) s.users

-- `list_users`
unfoldable pub list_users : Tables → List User
unfolding to_user
list_users s = map to_user (order_with (λ a b. leb b.created_at a.created_at) s.users)

-- ORDER BY two columns, the first a text or a time
abbrev pub by_surface : UserIdentityRow → UserIdentityRow → Bool
by_surface a b =
    if str_eq a.surface b.surface
    then leb a.created_at b.created_at
    else str_leb a.surface b.surface

abbrev pub by_age : UserIdentityRow → UserIdentityRow → Bool
by_age a b =
    if a.created_at == b.created_at then str_leb a.id b.id else ltb a.created_at b.created_at

-- `identities_of`
unfoldable pub identities_of : String → Tables → List UserIdentity
unfolding to_identity
identities_of user_id s =
    map to_identity
      (order_with by_surface (select_where (λ r. str_eq r.user_id user_id) s.identities))

-- `list_identities`
unfoldable pub list_identities : String → Tables → List UserIdentity
unfolding to_identity
list_identities surface s =
    map to_identity (order_with by_age (select_where (λ r. str_eq r.surface surface) s.identities))
