-- ===== src/Node/Report/Traffic.antt =====
-- The lists of node/user.go that are given to `ReportUserTraffic`, over several rounds.
use ljfxznode.Common.{
  ℕ, ◌+◌, ◌≡◌, ◌∙◌, refl, not, ◌&&◌, Bool, true, false, List, [], ◌∷◌, ◌++◌, arith, if◌then◌else◌,
}
use ljfxznode.Panel.{UserTraffic}
use ljfxznode.Core.{Core}
use ljfxznode.Limiter.State.{Externals}
use ljfxznode.Node.Controller.{Controller}
use ljfxznode.Node.Report.{Sent, or_none, is_nil, report_user_traffic}

-- The sum of a measure over a list, such as the bytes of one user.
abbrev pub sum : (UserTraffic → ℕ) → List UserTraffic → ℕ
sum f [] = 0
sum f (t ∷ ts) = f t + sum f ts

abbrev pub total : (List UserTraffic → ℕ) → List (List UserTraffic) → ℕ
total f [] = 0
total f (ts ∷ tss) = f ts + total f tss

sum-append :
    (f : UserTraffic → ℕ) (xs ys : List UserTraffic) → sum f (xs ++ ys) ≡ sum f xs + sum f ys
sum-append f [] ys = omega arith
sum-append f (t ∷ ts) ys = omega (arith, sum-append f ts ys)

-- The list of a report that got no error.
abbrev pub accepted_traffic : Sent → List UserTraffic
accepted_traffic s = if s.accepted then s.traffic else []

-- A round, before which the core's state may change in any way.
pub record Round (core : Core) : Type 0 where
  pub meanwhile : core.State → core.State
  pub panel_ok : Bool
  pub ws_connected : Bool

pub record Totals (x : Externals) (core : Core) : Type 0 where
  pub state : Controller x core
  pub took : List UserTraffic
  -- one list for each round, empty if the panel took none
  pub accepted : List (List UserTraffic)

kept_or_sent :
    (f : UserTraffic → ℕ) (ts : List UserTraffic) (ok : Bool)
    → sum f (if not (is_nil ts) && ok then ts else [])
        + sum f (if not (is_nil ts) && not ok then ts else [])
      ≡ sum f ts
kept_or_sent f [] ok = refl
kept_or_sent f (t ∷ ts) true = omega arith
kept_or_sent f (t ∷ ts) false = omega arith

module _ {x : Externals} {core : Core} where
  -- What the core hands out in a round.
  abbrev pub taken : Controller x core → List UserTraffic
  taken c = or_none (core.get_user_traffic_slice c.tag true c.server).1

  round-sum :
      (f : UserTraffic → ℕ) (panel_ok ws : Bool) (c : Controller x core)
      → let (c', sent) = report_user_traffic panel_ok ws c in
        sum f (accepted_traffic sent) + sum f c'.pending_traffic
        ≡ sum f (taken c) + sum f c.pending_traffic
  unfolding report_user_traffic
  round-sum f panel_ok ws c =
      kept_or_sent f (taken c ++ c.pending_traffic) panel_ok
      ∙ sum-append f (taken c) c.pending_traffic

  unfoldable pub rounds : List (Round core) → Controller x core → Totals x core
  rounds [] c = record { state = c; took = []; accepted = [] }
  rounds (r ∷ rs) c =
      let d = record c { server = r.meanwhile c.server } in
      let (c', sent) = report_user_traffic r.panel_ok r.ws_connected d in
      let rest = rounds rs c' in
      record {
        state = rest.state;
        took = taken d ++ rest.took;
        accepted = accepted_traffic sent ∷ rest.accepted;
      }

  -- Over any rounds, whichever of them the panel refuses and whatever happens in the core between
  -- them, the lists that `ReportUserTraffic` was given without an error and what is still pending add
  -- up to what the core handed out and what was pending before, by any measure of the entries. Which
  -- bytes of such a list stand in the body of the request is not stated here.
  pub rounds-sum :
      (f : UserTraffic → ℕ) (rs : List (Round core)) (c : Controller x core)
      → let t = rounds rs c in
        total (sum f) t.accepted + sum f t.state.pending_traffic
        ≡ sum f t.took + sum f c.pending_traffic
  unfolding rounds
  rounds-sum f [] c = refl
  rounds-sum f (r ∷ rs) c =
      let d = record c { server = r.meanwhile c.server } in
      let (c', sent) = report_user_traffic r.panel_ok r.ws_connected d in
      let rest = rounds rs c' in
      omega (
        arith,
        rounds-sum f rs c',
        round-sum f r.panel_ok r.ws_connected d,
        sum-append f (taken d) rest.took,
      )
