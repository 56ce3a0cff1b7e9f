-- ===== src/Limiter/History/Cooling.antt =====
-- A kicked address over a history.
use ljfxznode.Common.{
  ℕ, ◌+◌, ◌≤◌, ◌<◌, ◌≡◌, ◌∙◌, refl, ap, inl, inr, Bool, true, false, none, some, List, [], ◌∷◌,
  String, ℤ, pos, leb_ℤ, lt→ltb, Option, arith, Option-cases, lookup, lookup-delete, text_key,
  nat_key, nat_beq, nat_beq_iff, if◌then◌else◌,
}
use ljfxznode.Panel.{UserInfo}
use ljfxznode.Limiter.State.{
  Externals, Limiter, CooldownShard, pure_ip, shard_of, observe-set_shard, kick_cooldown_duration,
}
use ljfxznode.Limiter.Valid.{LimiterValid}
use ljfxznode.Limiter.Cooldown.{devices_dirty, reset_devices_dirty}
use ljfxznode.Limiter.Conn.{Registered, try_open_conn, kick_device}
use ljfxznode.Limiter.Conn.Kicks.{
  kick_device-expiry, kick_device-LimiterValid, try_open_conn-cooldown,
}
use ljfxznode.Limiter.Cooldown.Expiry.{
  expiry, expiry_in, runs, still, in_cooldown-runs, purge_expired_cooldowns-expiry,
}
use ljfxznode.Limiter.Refs.{same}
use ljfxznode.Limiter.Users.{
  set_alive_list, update_user, drop_cooldown, delete_user, delete_users, modify_users, add_users,
}
use ljfxznode.Limiter.Devices.{update_global_devices}
use ljfxznode.Limiter.History.{
  Event, open_conn, check, close_conn, kick, sync_devices, ask_dirty, reset_dirty, set_alive,
  change_users, change_rules, step, run, step-LimiterValid, run-LimiterValid,
}
use ljfxznode.Limiter.History.Throttle.{
  Later, try_open_conn-Later, check_limit-Later, conn_closed-Later, update_rule-Later,
  modify_users-Later,
}

-- The operations in the time of a cooldown: a purge reads a time before its end, a further kick is not
-- before the first, and the user is not deleted.
abbrev pub AllOthers : ℕ → List UserInfo → Type 0
AllOthers uid [] = Unit
AllOthers uid (w ∷ us) = (nat_beq w.id uid ≡ false) × AllOthers uid us

abbrev pub IsDuring : ℕ → ℕ → Event → Type 0
IsDuring kicked uid (open_conn now choice u taguuid ip limit) = Unit
IsDuring kicked uid (check now choice taguuid ip tcp) = Unit
IsDuring kicked uid (close_conn taguuid ip) = Unit
IsDuring kicked uid (kick reg now u taguuid ip) = kicked ≤ now
IsDuring kicked uid (sync_devices now users) = Unit
IsDuring kicked uid (ask_dirty now) = now < kicked + kick_cooldown_duration
IsDuring kicked uid reset_dirty = Unit
IsDuring kicked uid (set_alive m) = Unit
IsDuring kicked uid (change_users tag added deleted modified) = AllOthers uid deleted
IsDuring kicked uid (change_rules rules) = Unit

abbrev pub AllDuring : ℕ → ℕ → List Event → Type 0
AllDuring kicked uid [] = Unit
AllDuring kicked uid (e ∷ es) = IsDuring kicked uid e × AllDuring kicked uid es

-- An entry that runs to the end at least.
abbrev RunsTo : ℕ → Option ℕ → Type 0
RunsTo end none = ⊥
RunsTo end (some e) = end ≤ e

RunsTo-still : (now end : ℕ) (o : Option ℕ) → now < end → RunsTo end o → RunsTo end (still now o)
RunsTo-still now end none h r = r
RunsTo-still now end (some e) h r = rw (lt→ltb now e (omega arith)) r

RunsTo-runs : (now end : ℕ) (o : Option ℕ) → now < end → RunsTo end o → runs now o ≡ true
RunsTo-runs now end none h r = absurd r
RunsTo-runs now end (some e) h r = lt→ltb now e (omega arith)

RunsTo-if :
    (end e : ℕ) (b : Bool) (o : Option ℕ)
    → end ≤ e
    → RunsTo end o
    → RunsTo end (if b then some e else o)
RunsTo-if end e true o h r = h
RunsTo-if end e false o h r = r

expiry_in-drop_cooldown :
    (gone uid : ℕ) (a : String) (cd : CooldownShard)
    → nat_beq gone uid ≡ false
    → expiry_in uid a (drop_cooldown gone cd).0 ≡ expiry_in uid a cd
unfolding drop_cooldown
expiry_in-drop_cooldown gone uid a cd h = elim (Option-cases (lookup gone cd)) [
  | inl none_here ↦ rw (none_here, drop_cooldown) refl
  | inr (ips, found) ↦ rw (found, drop_cooldown) (rw (lookup-delete gone uid cd, h) refl)
]

module _ {x : Externals} (uid : ℕ) (a : String) where
  expiry-Later : (l k : Limiter x) → Later l k → expiry k uid a ≡ expiry l uid a
  expiry-Later l k t = ap (λ f. expiry_in uid a (f (shard_of uid))) t.cooldowns

  expiry-delete_users :
      (tag : String) (us : List UserInfo) (l : Limiter x)
      → AllOthers uid us
      → expiry (delete_users tag us l) uid a ≡ expiry l uid a
  unfolding delete_users delete_user
  expiry-delete_users tag [] l h = refl
  expiry-delete_users tag (w ∷ us) l (other, h) =
      let cd = l.kick_cooldown (shard_of w.id) in
      expiry-delete_users tag us (delete_user tag w l) h
      ∙ (observe-set_shard (λ v. expiry_in v a) l.kick_cooldown w.id (drop_cooldown w.id cd).0 uid
            (λ differs. expiry_in-drop_cooldown w.id uid a cd other)
          ∙ rw other refl)

  module _ (kicked : ℕ) where
    -- The address cools down for 300 seconds from the kick on, or longer.
    abbrev Cools : Limiter x → Type 0
    Cools l = RunsTo (kicked + kick_cooldown_duration) (expiry l uid a)

    step-Cools :
        (e : Event) (l : Limiter x)
        → LimiterValid l
        → IsDuring kicked uid e
        → Cools l
        → Cools (step e l)
    unfolding step devices_dirty reset_devices_dirty set_alive_list update_global_devices
        update_user add_users
    step-Cools (open_conn now choice u taguuid ip limit) l v d c =
        rw (expiry-Later l _ (try_open_conn-Later l now choice u taguuid ip limit)) c
    step-Cools (check now choice taguuid ip tcp) l v d c =
        rw (expiry-Later l _ (check_limit-Later l now choice taguuid ip tcp)) c
    step-Cools (close_conn taguuid ip) l v d c =
        rw (expiry-Later l _ (conn_closed-Later l taguuid ip)) c
    step-Cools (kick reg now u taguuid ip) l v d c =
        rw (kick_device-expiry l reg now u taguuid ip uid a) (
          RunsTo-if (kicked + kick_cooldown_duration) (now + kick_cooldown_duration)
            (same u ip uid a) (expiry l uid a) (omega arith) c)
    step-Cools (sync_devices now users) l v d c = c
    step-Cools (ask_dirty now) l v d c =
        rw (purge_expired_cooldowns-expiry l now uid a v)
          (RunsTo-still now (kicked + kick_cooldown_duration) (expiry l uid a) d c)
    step-Cools reset_dirty l v d c = c
    step-Cools (set_alive m) l v d c = c
    step-Cools (change_users tag added deleted modified) l v d c =
        let k = delete_users tag deleted l in
        rw
          (
            expiry-Later k (modify_users tag modified k) (modify_users-Later tag modified k),
            expiry-delete_users tag deleted l d,
          )
          c
    step-Cools (change_rules rules) l v d c = rw (expiry-Later l _ (update_rule-Later l rules)) c

    run-Cools :
        (es : List Event) (l : Limiter x)
        → LimiterValid l
        → AllDuring kicked uid es
        → Cools l
        → Cools (run es l)
    unfolding run
    run-Cools [] l v d c = c
    run-Cools (e ∷ es) l v (now, d) c =
        run-Cools es (step e l) (step-LimiterValid e l v) d (step-Cools e l v now c)

-- For 300 seconds from a kick on, a user with a limit is refused from the kicked address, and the attempt
-- changes nothing: after every sequence of the limiter's operations, in which connections come and go,
-- the table is purged at times before the end, there are other kicks, none before the first, and users
-- are added, changed and deleted, but for this one. The limiter is in order at the kick.
pub kick_device-run :
    {x : Externals} (l : Limiter x) (reg : Registered) (es : List Event) (kicked now choice uid : ℕ)
    (taguuid tag' victim ip : String) (limit : ℤ)
    → LimiterValid l
    → AllDuring kicked uid es
    → leb_ℤ limit (pos 0) ≡ false
    → pure_ip ip ≡ victim
    → now < kicked + kick_cooldown_duration
    → let l' = run es (kick_device l reg kicked uid taguuid victim).0 in
      try_open_conn l' now choice uid tag' ip limit ≡ (l', false, none)
kick_device-run l reg es kicked now choice uid taguuid tag' victim ip limit v during limited e
      soon =
    let k = (kick_device l reg kicked uid taguuid victim).0 in
    let v' = kick_device-LimiterValid l reg kicked uid taguuid victim v in
    let l' = run es k in
    let end = kicked + kick_cooldown_duration in
    let same_address : same uid victim uid (pure_ip ip) ≡ true =
      ground (arith, nat_beq_iff uid uid, text_key.same_iff victim (pure_ip ip)) in
    let begun : RunsTo end (expiry k uid (pure_ip ip)) =
      rw (kick_device-expiry l reg kicked uid taguuid victim uid (pure_ip ip), same_address)
        (omega arith) in
    let cools = run-Cools uid (pure_ip ip) kicked es k v' during begun in
    try_open_conn-cooldown l' now choice uid tag' ip limit limited (
      in_cooldown-runs l' now uid (pure_ip ip) (run-LimiterValid es k v')
      ∙ RunsTo-runs now end (expiry l' uid (pure_ip ip)) soon cools)
