-- ===== src/Panel/UserList.antt =====
-- `GetUserList` of api/panel/user.go.
use ljfxznode.Common.{Option, none, some, List, String, ◌>>=◌, ◌==◌, nat_key, if◌then◌else◌}
use ljfxznode.Panel.{UserInfo}
use ljfxznode.Panel.Json.{Json, null, array, field_of, or_null}
use ljfxznode.Panel.Socket.{or_done, decode_user_items}
use ljfxznode.Panel.Config.Caching.{Response, check_response}

-- `UserListBody.Users`, which is nil where the body has none.
abbrev pub users_or_nil : Json → Option (Option (List UserInfo))
users_or_nil null = some none
users_or_nil (array xs) = decode_user_items xs >>= (λ us. some (some us))
users_or_nil _ = none

unfoldable pub user_list_of : Json → Option (Option (List UserInfo))
unfolding decode_user_items
user_list_of body = do fs ← or_done body; users_or_nil (or_null (field_of "users" fs))

-- The client's `userEtag` afterwards, and the list: `none` is an error, `some none` nil.
unfoldable pub get_user_list : Option Response → String → String × Option (Option (List UserInfo))
unfolding check_response user_list_of
get_user_list none etag = (etag, none)
get_user_list (some r) etag =
    if r.status_code == 304
    then (etag, some none)
    else (if check_response r
        then (etag, none)
        else elim (r.body >>= user_list_of) [ none ↦ (etag, none) | some us ↦ (r.etag, some us) ])
