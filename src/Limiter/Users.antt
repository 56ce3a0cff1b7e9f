-- ===== src/Limiter/Users.antt =====
-- The user tables: `AddLimiter`, `GetLimiter`, `DeleteLimiter`, `UpdateUser` and the alive list.
pub mod Valid
use ljfxznode.Common.{
  ℕ, suc, ◌≡◌, Bool, true, false, not, Option, none, some, List, [], ◌∷◌, String, ℤ, pos, negsuc,
  ◌-ℤ◌, beq_ℤ, if◌then◌else◌, text_key, nat_key, Map, lookup, insert, delete, get, length,
}
use ljfxznode.Panel.{UserInfo, AliveMap, LimitConfig, user_tag}
use ljfxznode.Limiter.State.{Externals, Limiter, UserLimitInfo, CooldownShard, shard_of, set_shard}

-- The entry of a new user: a limit is copied unless it is 0, the value of a field that is not set.
unfoldable pub new_user_limit : UserInfo → UserLimitInfo
new_user_limit u = record {
  uid = u.id;
  speed_limit = if not (beq_ℤ u.speed_limit (pos 0)) then u.speed_limit else pos 0;
  device_limit = if not (beq_ℤ u.device_limit (pos 0)) then u.device_limit else pos 0;
}

-- `for i := range users { ... Store(format.UserTag(tag, users[i].Uuid), userLimit) }`
unfoldable pub store_users :
    String → List UserInfo → Map String UserLimitInfo → Map String UserLimitInfo
unfolding new_user_limit user_tag
store_users tag [] table = table
store_users tag (u ∷ us) table =
    store_users tag us (insert (user_tag tag u.uuid) (new_user_limit u) table)

-- The limiter that `AddLimiter` makes. The alive list is a copy.
unfoldable pub new_limiter :
    (x : Externals) → String → LimitConfig → List UserInfo → AliveMap → Limiter x
unfolding store_users
new_limiter x tag config users alive = record {
  domain_rules = [];
  protocol_rules = [];
  speed_limit = config.speed_limit;
  user_limit_info = store_users tag users [];
  speed_limiter = [];
  alive_list = alive;
  ref_shards = λ _. [];
  device_dirty = false;
  kick_throttle = λ _. 0;
  kick_cooldown = λ _. [];
  cooldown_count = pos 0;
  global_devices = [];
  global_count = [];
  global_last_update = none;
}

-- The package's table of limiters, by tag.
abbrev pub Registry : Externals → Type 0
Registry x = Map String (Limiter x)

module _ {x : Externals} where
  unfoldable pub add_limiter :
      String → LimitConfig → List UserInfo → AliveMap → Registry x → Limiter x × Registry x
  unfolding new_limiter
  add_limiter tag config users alive reg =
      let info = new_limiter x tag config users alive in (info, insert tag info reg)

  -- `none` is the error "not found".
  unfoldable pub get_limiter : String → Registry x → Option (Limiter x)
  get_limiter tag reg = lookup tag reg

  unfoldable pub delete_limiter : String → Registry x → Registry x
  delete_limiter tag reg = delete tag reg

-- The cooldown entries of a deleted user: the shard, and how many go.
unfoldable pub drop_cooldown : ℕ → CooldownShard → CooldownShard × ℕ
drop_cooldown uid cd = elim (lookup uid cd) [
  | none ↦ (cd, 0)
  | some ips ↦ (delete uid cd, length ips)
]

module _ {x : Externals} where
  unfoldable pub set_alive_list : AliveMap → Limiter x → Limiter x
  set_alive_list m l = record l { alive_list = m }

  unfoldable pub get_alive_list : Limiter x → AliveMap
  get_alive_list l = l.alive_list

  unfoldable pub del_alive : ℕ → Limiter x → Limiter x
  del_alive uid l = record l { alive_list = delete uid l.alive_list }

  -- One round of the first loop of `UpdateUser`.
  unfoldable pub delete_user : String → UserInfo → Limiter x → Limiter x
  unfolding drop_cooldown del_alive
  delete_user tag u l =
      let i = shard_of u.id in
      let (cd, gone) = drop_cooldown u.id (l.kick_cooldown i) in
      record (del_alive u.id l) {
        user_limit_info = delete (user_tag tag u.uuid) l.user_limit_info;
        speed_limiter = delete (user_tag tag u.uuid) l.speed_limiter;
        ref_shards = set_shard l.ref_shards i (delete u.id (l.ref_shards i));
        global_devices = delete u.id l.global_devices;
        global_count = delete u.id l.global_count;
        kick_cooldown = set_shard l.kick_cooldown i cd;
        cooldown_count = l.cooldown_count -ℤ pos gone;
        device_dirty = true;
      }

  -- One round of the second loop: the limits change in place, and the bucket is dropped.
  unfoldable pub modify_user : String → UserInfo → Limiter x → Limiter x
  modify_user tag u l =
      let key = user_tag tag u.uuid in
      record l {
        user_limit_info = elim (lookup key l.user_limit_info) [
          | none ↦ l.user_limit_info
          | some info ↦
              insert key
                (record info { speed_limit = u.speed_limit; device_limit = u.device_limit })
                l.user_limit_info
        ];
        speed_limiter = delete key l.speed_limiter;
      }

  unfoldable pub delete_users : String → List UserInfo → Limiter x → Limiter x
  unfolding delete_user
  delete_users tag [] l = l
  delete_users tag (u ∷ us) l = delete_users tag us (delete_user tag u l)

  unfoldable pub modify_users : String → List UserInfo → Limiter x → Limiter x
  unfolding modify_user
  modify_users tag [] l = l
  modify_users tag (u ∷ us) l = modify_users tag us (modify_user tag u l)

  -- The third loop.
  unfoldable pub add_users : String → List UserInfo → Limiter x → Limiter x
  unfolding store_users
  add_users tag us l = record l { user_limit_info = store_users tag us l.user_limit_info }

  unfoldable pub update_user :
      String → List UserInfo → List UserInfo → List UserInfo → Limiter x → Limiter x
  update_user tag added deleted modified l =
      add_users tag added (modify_users tag modified (delete_users tag deleted l))
