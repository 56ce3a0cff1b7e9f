-- ===== src/Node/Start/Tables.antt =====
-- A node starts in order.
use ljfxznode.Common.{
  none_some, some_injective, ◌≡◌, inl, inr, Bool, true, false, not, ◌&&◌, Option, none, some, List,
  [], ◌∷◌, String, nat_beq, Option-cases, if◌then◌else◌,
}
use mathlib.Core.Path.{subst}
use ljfxznode.Panel.{UserInfo, AliveMap, NodeInfo, Rules, tls}
use ljfxznode.Core.{Core}
use ljfxznode.Limiter.State.{Externals, Limiter}
use ljfxznode.Limiter.Valid.{LimiterValid}
use ljfxznode.Limiter.Users.{new_limiter}
use ljfxznode.Limiter.Users.Valid.{new_limiter-LimiterValid}
use ljfxznode.Limiter.Rules.{update_rule}
use ljfxznode.Node.Controller.{Controller, Options, add_limiter}
use ljfxznode.Node.Users.Sync.{Agrees, new_limiter-Agrees}
use ljfxznode.Node.Monitor.{or_alive}
use ljfxznode.Node.Monitor.Tables.{Synced, update_rule-LimiterValid, update_rule-table}
use ljfxznode.Node.Start.{
  Started, failed_start, start_tag, started_controller, start_core, start_limiter, start,
}

-- Whatever controller comes out of a start is in order.
record StartedSynced {x : Externals} {core : Core} (r : Started x core) : Type 0 where
  synced : (c : Controller x core) → r.controller ≡ some c → Synced c

update_rule-Agrees :
    {x : Externals} (tag : String) (users : List UserInfo) (l : Limiter x) (rules : Rules)
    → Agrees tag users l
    → Agrees tag users (update_rule l rules).0
unfolding Agrees
update_rule-Agrees tag users l rules a q = rw (update_rule-table l rules) (a q)

module _ {x : Externals} {core : Core} (opt : Options) (host : String) where
  either-StartedSynced :
      (b : Bool) (r s : Started x core)
      → StartedSynced r
      → StartedSynced s
      → StartedSynced (if b then r else s)
  either-StartedSynced true r s p q = p
  either-StartedSynced false r s p q = q

  started_controller-Synced :
      (tag : String) (n : NodeInfo) (users : List UserInfo) (l : Limiter x) (s : core.State)
      → Agrees tag users l
      → LimiterValid l
      → Synced (started_controller {core = core} opt host tag n users l s)
  unfolding started_controller
  started_controller-Synced tag n users l s a v = record { agrees = a; valid = v }

  start_core-StartedSynced :
      (tag : String) (n : NodeInfo) (users : List UserInfo) (l : Limiter x) (s : core.State)
      → Agrees tag users l
      → LimiterValid l
      → StartedSynced (start_core {core = core} opt host tag n users l s)
  unfolding start_core
  start_core-StartedSynced tag n users l s a v =
      let (s', ok) = core.add_node tag n s in
      let (s'', added) = core.add_users tag users n s' in
      either-StartedSynced (not ok) _ _ (record { synced = λ c e. none_some e })
        (elim (Option-cases added) [
          | inl f ↦ rw f (record { synced = λ c e. none_some e })
          | inr (k, f) ↦ rw f (record {
            synced = λ c e.
                subst Synced (some_injective e) (started_controller-Synced tag n users l s'' a v);
          })
        ])

  start_limiter-StartedSynced :
      (n : NodeInfo) (users : List UserInfo) (alive : AliveMap) (cert_ok : Bool) (s : core.State)
      → StartedSynced (start_limiter {x = x} {core = core} opt host n users alive cert_ok s)
  unfolding start_limiter
  start_limiter-StartedSynced n users alive cert_ok s =
      let tag = start_tag opt host n in
      let new = new_limiter x tag opt.limit_config users alive in
      let gone = failed_start opt host s (add_limiter tag ∷ []) in
      let l = (update_rule new n.rules).0 in
      let r = start_core opt host tag n users l s in
      let cert = nat_beq n.security tls && not cert_ok in
      either-StartedSynced (not (update_rule new n.rules).1) gone (if cert then gone else r)
        (record { synced = λ c e. none_some e })
        (either-StartedSynced cert gone r (record { synced = λ c e. none_some e })
          (start_core-StartedSynced tag n users (update_rule new n.rules).0 s
            (update_rule-Agrees tag users new n.rules
              (new_limiter-Agrees tag new opt.limit_config users alive))
            (update_rule-LimiterValid new n.rules
              (new_limiter-LimiterValid x tag opt.limit_config users alive))))

  -- Whatever the panel and the core answer, a controller that starts has a limiter in order, whose
  -- table is that of its user list under the node's tag.
  pub start-Synced :
      (node : Option NodeInfo) (users : Option (List UserInfo)) (alive : Option AliveMap)
      (cert_ok : Bool) (s : core.State) (c : Controller x core)
      → (start opt host node users alive cert_ok s).controller ≡ some c
      → Synced c
  unfolding start
  start-Synced none users alive cert_ok s c e = none_some e
  start-Synced (some n) none alive cert_ok s c e = none_some e
  start-Synced (some n) (some us) alive cert_ok s c e =
      (start_limiter-StartedSynced n us (or_alive alive []) cert_ok s).synced c e
