-- ===== src/Node/Report/Body.antt =====
-- What the panel is sent of the traffic that a round reports: node/user.go with `ReportUserTraffic` of
-- api/panel/user.go.
use ljfxznode.Common.{ℕ, ◌≡◌, Bool, lookup, nat_key}
use ljfxznode.Core.{Core}
use ljfxznode.Limiter.State.{Externals}
use ljfxznode.Panel.Requests.{traffic_body, or_else, traffic_body-append}
use ljfxznode.Node.Controller.{Controller}
use ljfxznode.Node.Report.{report_user_traffic}
use ljfxznode.Node.Report.Traffic.{taken}

module _ {x : Externals} {core : Core} where
  -- The body of a round's traffic report has, for a user with traffic pending from a refused round, the
  -- pending bytes alone; for any other user it has what the core hands out in this round. So what the core
  -- hands out for a user with pending traffic is not in the report.
  pub report_user_traffic-pending :
      (panel_ok ws_connected : Bool) (c : Controller x core) (uid : ℕ)
      → lookup uid (traffic_body (report_user_traffic panel_ok ws_connected c).1.traffic)
        ≡ or_else
            (lookup uid (traffic_body c.pending_traffic))
            (lookup uid (traffic_body (taken c)))
  unfolding report_user_traffic
  report_user_traffic-pending panel_ok ws_connected c uid =
      traffic_body-append uid (taken c) c.pending_traffic
