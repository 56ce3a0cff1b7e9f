-- ===== src/Limiter/Bound/Steps.antt =====
-- The bound of a user's devices on the node, over any history in which the table of users stays.
use mathlib.Core.Path.{subst}
use ljfxznode.Common.{
  ℕ, ◌<◌, ◌≤◌, ◌≡◌, ◌∙◌, refl, sym, inl, inr, Bool, true, false, none, List, [], ◌∷◌, String, ℤ,
  pos, Map, leb_ℤ, ltb_ℤ, Option, arith, Bool-cases, Option-cases, lookup, insert, length,
  AllEntries-lookup, AllEntries-insert, text_key, nat_key, nat_beq, nat_beq_iff,
}
use ljfxznode.Panel.{user_tag, UserInfo, AliveMap, LimitConfig}
use ljfxznode.Limiter.State.{Externals, Limiter, UserLimitInfo, pure_ip}
use ljfxznode.Limiter.Valid.{LimiterValid}
use ljfxznode.Limiter.Gate.{local_ips, check_device_gate}
use ljfxznode.Limiter.Cooldown.{devices_dirty, reset_devices_dirty}
use ljfxznode.Limiter.Conn.{Kick, try_open_conn, conn_closed, close_of_user, kick_device}
use ljfxznode.Limiter.Conn.Admission.{try_open_conn-local_devices}
use ljfxznode.Limiter.Users.{set_alive_list}
use ljfxznode.Limiter.Devices.{update_global_devices}
use ljfxznode.Limiter.Limit.{with_bucket, rejected, check_limit, check_user}
use ljfxznode.Limiter.History.{
  Event, open_conn, check, close_conn, kick, sync_devices, ask_dirty, reset_dirty, set_alive,
  change_users, change_rules, step, run, step-LimiterValid,
}
use ljfxznode.Limiter.Users.{new_user_limit, store_users, new_limiter}
use ljfxznode.Limiter.Users.Valid.{new_limiter-LimiterValid}
use ljfxznode.Limiter.Bound.{
  leb_pos, length-close_of_user, IsSteady, HasLimit, SameUsers, Bounded, SameUsers-Bounded,
  user_bucket-SameUsers, update_rule-SameUsers, purge-SameUsers, try_open_conn_table,
  try_open_conn_other,
}

abbrev pub AllSteady : List Event → Type 0
AllSteady [] = Unit
AllSteady (e ∷ es) = IsSteady e × AllSteady es

-- Every user of the list with the id has the limit.
abbrev pub AllHave : ℕ → ℕ → List UserInfo → Type 0
AllHave u limit [] = Unit
AllHave u limit (w ∷ users) = (w.id ≡ u → w.device_limit ≡ pos limit) × AllHave u limit users

module _ {x : Externals} where
  own_Bounded :
      (l : Limiter x) (now choice u : ℕ) (taguuid ip : String) (limit : ℕ)
      → LimiterValid l
      → 0 < limit
      → pure_ip (pure_ip ip) ≡ pure_ip ip
      → Bounded u limit l (try_open_conn l now choice u taguuid ip (pos limit)).0
  own_Bounded l now choice u taguuid ip limit v positive plain = record {
    table = try_open_conn_table l now choice u taguuid ip (pos limit);
    bounded = λ h.
        let set : leb_ℤ (pos limit) (pos 0) ≡ false = ground arith in
        let fits : leb_ℤ (pos (length (local_ips l u))) (pos limit) ≡ true = ground arith in
        let after =
          try_open_conn-local_devices l now choice u taguuid ip (pos limit) v set plain fits in
        leb_pos (length (local_ips (try_open_conn l now choice u taguuid ip (pos limit)).0 u)) limit
          after;
  }

  try_open_conn-Bounded :
      (l : Limiter x) (now choice uid : ℕ) (taguuid ip : String) (given : ℤ) (u limit : ℕ)
      → LimiterValid l
      → 0 < limit
      → pure_ip (pure_ip ip) ≡ pure_ip ip
      → (uid ≡ u → given ≡ pos limit)
      → Bounded u limit l (try_open_conn l now choice uid taguuid ip given).0
  try_open_conn-Bounded l now choice uid taguuid ip given u limit v positive plain known =
      elim (Bool-cases (nat_beq uid u)) [
        | inl e ↦
            let q = (nat_beq_iff uid u).0 e in
            subst (λ w. Bounded u limit l (try_open_conn l now choice w taguuid ip given).0) (sym q)
              (subst (λ n. Bounded u limit l (try_open_conn l now choice u taguuid ip n).0)
                (sym (known q)) (own_Bounded l now choice u taguuid ip limit v positive plain))
        | inr e ↦ record {
          table = try_open_conn_table l now choice uid taguuid ip given;
          bounded = λ h. rw (try_open_conn_other l now choice uid taguuid ip given u e) h;
        }
      ]

  Bounded-trans :
      (u limit : ℕ) (l k m : Limiter x)
      → Bounded u limit l k
      → Bounded u limit k m
      → Bounded u limit l m
  Bounded-trans u limit l k m p q = record {
    table = q.table ∙ p.table;
    bounded = λ h. q.bounded (p.bounded h);
  }

  with_bucket-SameUsers :
      (l : Limiter x) (taguuid : String) (limit : ℤ) (k : Option Kick)
      → SameUsers l (with_bucket l taguuid limit k).state
  unfolding with_bucket
  with_bucket-SameUsers l taguuid limit k = user_bucket-SameUsers l taguuid limit

  check_user-Bounded :
      (l : Limiter x) (now choice : ℕ) (taguuid ip : String) (tcp : Bool) (info : UserLimitInfo)
      (u limit : ℕ)
      → LimiterValid l
      → 0 < limit
      → pure_ip (pure_ip ip) ≡ pure_ip ip
      → (info.uid ≡ u → info.device_limit ≡ pos limit)
      → Bounded u limit l (check_user l now choice taguuid ip tcp info).state
  unfolding check_user rejected
  check_user-Bounded l now choice taguuid ip true info u limit v positive plain known =
      let t = try_open_conn l now choice info.uid taguuid ip info.device_limit in
      let w =
        try_open_conn-Bounded l now choice info.uid taguuid ip info.device_limit u limit v positive
          plain known in
      elim (Bool-cases t.1) [
        | inl ok ↦ rw ok (
            Bounded-trans u limit l t.0 _ w (
              SameUsers-Bounded u limit t.0 _
                (with_bucket-SameUsers t.0 taguuid info.speed_limit t.2)))
        | inr denied ↦ rw denied w
      ]
  check_user-Bounded l now choice taguuid ip false info u limit v positive plain known =
      let w =
        SameUsers-Bounded u limit l _ (with_bucket-SameUsers l taguuid info.speed_limit none) in
      let stays = SameUsers-Bounded u limit l l (record { refs = refl; users = refl }) in
      elim (Bool-cases (ltb_ℤ (pos 0) info.device_limit)) [
        | inl limited ↦
            elim (Bool-cases (check_device_gate l now choice info.uid ip info.device_limit).0) [
              | inl reject ↦ rw (limited, reject) stays
              | inr pass ↦ rw (limited, pass) w
            ]
        | inr free ↦ rw free w
      ]

  check_limit-Bounded :
      (l : Limiter x) (now choice : ℕ) (taguuid ip : String) (tcp : Bool) (u limit : ℕ)
      → LimiterValid l
      → 0 < limit
      → pure_ip (pure_ip (pure_ip ip)) ≡ pure_ip (pure_ip ip)
      → HasLimit u limit l.user_limit_info
      → Bounded u limit l (check_limit l now choice taguuid ip tcp).state
  unfolding check_limit rejected
  check_limit-Bounded l now choice taguuid ip tcp u limit v positive plain known =
      elim (Option-cases (lookup taguuid l.user_limit_info)) [
        | inl gone ↦
            rw (gone, check_limit)
              (SameUsers-Bounded u limit l l (record { refs = refl; users = refl }))
        | inr (info, found) ↦
            rw (found, check_limit)
              (check_user-Bounded l now choice taguuid (pure_ip ip) tcp info u limit v positive
                plain
                (AllEntries-lookup (λ tag i. i.uid ≡ u → i.device_limit ≡ pos limit) taguuid
                  l.user_limit_info known found))
      ]

  conn_closed-Bounded :
      (l : Limiter x) (taguuid ip : String) (u limit : ℕ)
      → Bounded u limit l (conn_closed l taguuid ip)
  unfolding conn_closed close_of_user
  conn_closed-Bounded l taguuid ip u limit =
      elim (Option-cases (lookup taguuid l.user_limit_info)) [
        | inl gone ↦
            rw (gone, conn_closed)
              (SameUsers-Bounded u limit l l (record { refs = refl; users = refl }))
        | inr (info, found) ↦
            rw (found, conn_closed)
              (record {
                table = refl;
                bounded = λ h. let shrunk = length-close_of_user l info.uid ip u in omega arith;
              })
      ]

  -- A steady operation keeps the bound.
  step-Bounded :
      (e : Event) (l : Limiter x) (u limit : ℕ)
      → LimiterValid l
      → 0 < limit
      → IsSteady e
      → HasLimit u limit l.user_limit_info
      → Bounded u limit l (step e l)
  unfolding step devices_dirty reset_devices_dirty set_alive_list kick_device update_global_devices
  step-Bounded (open_conn now choice uid taguuid ip given) l u limit v positive steady known =
      absurd steady
  step-Bounded (check now choice taguuid ip tcp) l u limit v positive steady known =
      check_limit-Bounded l now choice taguuid ip tcp u limit v positive steady known
  step-Bounded (close_conn taguuid ip) l u limit v positive steady known =
      conn_closed-Bounded l taguuid ip u limit
  step-Bounded (kick reg now uid taguuid ip) l u limit v positive steady known =
      SameUsers-Bounded u limit l _ (record { refs = refl; users = refl })
  step-Bounded (sync_devices now users) l u limit v positive steady known =
      SameUsers-Bounded u limit l _ (record { refs = refl; users = refl })
  step-Bounded (ask_dirty now) l u limit v positive steady known =
      SameUsers-Bounded u limit l _ (purge-SameUsers l now)
  step-Bounded reset_dirty l u limit v positive steady known =
      SameUsers-Bounded u limit l _ (record { refs = refl; users = refl })
  step-Bounded (set_alive m) l u limit v positive steady known =
      SameUsers-Bounded u limit l _ (record { refs = refl; users = refl })
  step-Bounded (change_users tag added deleted modified) l u limit v positive steady known =
      absurd steady
  step-Bounded (change_rules rules) l u limit v positive steady known =
      SameUsers-Bounded u limit l _ (update_rule-SameUsers l rules)

  run_bounded :
      (es : List Event) (l : Limiter x) (u limit : ℕ)
      → LimiterValid l
      → 0 < limit
      → AllSteady es
      → HasLimit u limit l.user_limit_info
      → length (local_ips l u) ≤ limit
      → length (local_ips (run es l) u) ≤ limit
  unfolding run
  run_bounded [] l u limit v positive steady known h = h
  run_bounded (e ∷ es) l u limit v positive (s, steady) known h =
      let b = step-Bounded e l u limit v positive s known in
      run_bounded es (step e l) u limit (step-LimiterValid e l v) positive steady (rw b.table known)
        (b.bounded h)

store_users-HasLimit :
    (tag : String) (u limit : ℕ) (users : List UserInfo) (m : Map String UserLimitInfo)
    → AllHave u limit users
    → HasLimit u limit m
    → HasLimit u limit (store_users tag users m)
unfolding store_users new_user_limit
store_users-HasLimit tag u limit [] m h known = known
store_users-HasLimit tag u limit (w ∷ users) m (own, h) known =
    store_users-HasLimit tag u limit users (insert (user_tag tag w.uuid) (new_user_limit w) m) h (
      AllEntries-insert (λ k i. i.uid ≡ u → i.device_limit ≡ pos limit) (user_tag tag w.uuid)
        (new_user_limit w) m (λ e. let given = own e in ground arith) known)

-- A user with a limit never has more devices on the node than the limit: from the moment the limiter is
-- made, over every sequence of its operations in which the table of users stays and the devices' addresses
-- have no second prefix, whatever the global table says and whoever else connects. Everyone with the
-- user's id has the limit.
pub run-local_ips :
    (x : Externals) (tag : String) (config : LimitConfig) (users : List UserInfo) (alive : AliveMap)
    (es : List Event) (u limit : ℕ)
    → 0 < limit
    → AllHave u limit users
    → AllSteady es
    → length (local_ips (run es (new_limiter x tag config users alive)) u) ≤ limit
unfolding new_limiter lookup
run-local_ips x tag config users alive es u limit positive have steady =
    run_bounded es (new_limiter x tag config users alive) u limit
      (new_limiter-LimiterValid x tag config users alive) positive steady
      (store_users-HasLimit tag u limit users [] have tt) (omega arith)
