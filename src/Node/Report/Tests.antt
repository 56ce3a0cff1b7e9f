-- ===== src/Node/Report/Tests.antt =====
-- The reports' theorems at concrete inputs.
use ljfxznode.Common.{
  ℕ, ℤ, ◌+◌, ◌≡◌, refl, true, false, some, List, [], ◌∷◌, pos, text_key, nat_key, lookup, insert,
  pos_part,
}
use ljfxznode.Limiter.Cooldown.{devices_dirty}
use ljfxznode.Limiter.Devices.{local_device_snapshot}
use ljfxznode.Node.Report.{report_devices}
use ljfxznode.Node.Report.Traffic.{Round, sum, total, rounds}
use ljfxznode.Node.Report.Received.{own, sent_bytes, replaced_bytes, rounds-received}
use ljfxznode.Node.Report.{report_user_traffic}
use ljfxznode.Node.Report.Body.{report_user_traffic-pending}
use ljfxznode.Panel.Requests.{traffic_body}
use ljfxznode.Node.Report.Devices.{Outcome, report_devices-outcome}
use ljfxznode.Node.Tests.{willing, started, or_true}

abbrev two_rounds : List (Round willing)
two_rounds =
    record { meanwhile = λ s. s; panel_ok = false; ws_connected = true }
    ∷ record { meanwhile = λ s. s + 4; panel_ok = true; ws_connected = false }
    ∷ []

abbrev upload_of : ℤ × ℤ → ℕ
upload_of v = pos_part v.0

rounds-received_example :
    let t = rounds two_rounds started in
    total (sent_bytes upload_of 7) t.accepted
      + total (replaced_bytes upload_of 7) t.accepted
      + sum (own upload_of 7) t.state.pending_traffic
    ≡ sum (own upload_of 7) t.took + sum (own upload_of 7) started.pending_traffic
rounds-received_example = rounds-received upload_of 7 two_rounds started

-- In the second round the pending 3 bytes replace the 4 and 5 bytes before them.
replaced_in_two_rounds : total (replaced_bytes upload_of 7) (rounds two_rounds started).accepted ≡ 9
unfolding rounds report_user_traffic
replaced_in_two_rounds = refl

report_user_traffic-pending_example :
    lookup 7 (traffic_body (report_user_traffic true true started).1.traffic) ≡ some (pos 3, pos 0)
unfolding traffic_body lookup insert
report_user_traffic-pending_example = report_user_traffic-pending true true started 7

report_devices-outcome_example :
    Outcome
      (λ s. s)
      (local_device_snapshot (devices_dirty started.limiter 5).0 6)
      true
      started.last_report_devices_hash
      (report_devices (λ s. s) 5 6 true true started)
report_devices-outcome_example = report_devices-outcome (λ s. s) 5 6 true started (or_true _)
