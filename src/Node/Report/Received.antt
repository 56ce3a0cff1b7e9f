-- ===== src/Node/Report/Received.antt =====
-- What the panel is sent of a user's traffic over several rounds: node/user.go with `ReportUserTraffic`
-- of api/panel/user.go.
use ljfxznode.Common.{
  ℕ, ◌+◌, ◌≡◌, refl, Bool, true, false, Option, none, some, List, [], ◌∷◌, ℤ, arith, if◌then◌else◌,
  lookup, insert, nat_key, ◌==◌,
}
use ljfxznode.Panel.{UserTraffic}
use ljfxznode.Panel.Requests.{traffic_from, traffic_body, or_else, traffic_body-append}
use ljfxznode.Core.{Core}
use ljfxznode.Limiter.State.{Externals}
use ljfxznode.Node.Controller.{Controller}
use ljfxznode.Node.Report.Traffic.{sum, total, Round, rounds, rounds-sum}

-- A measure of a user's bytes, such as its upload.
module _ (bytes : ℤ × ℤ → ℕ) (uid : ℕ) where
  abbrev pub own : UserTraffic → ℕ
  own t = if t.uid == uid then bytes (t.upload, t.download) else 0

  abbrev measured : Option (ℤ × ℤ) → ℕ
  measured none = 0
  measured (some v) = bytes v

  -- The user's bytes in the body that is made of a list.
  abbrev pub sent_bytes : List UserTraffic → ℕ
  sent_bytes ts = measured (lookup uid (traffic_body ts))

  abbrev pub appears : List UserTraffic → Bool
  appears [] = false
  appears (t ∷ ts) = if t.uid == uid then true else appears ts

  -- The bytes of the user's entries that another entry of the same list follows.
  abbrev pub replaced_bytes : List UserTraffic → ℕ
  replaced_bytes [] = 0
  replaced_bytes (t ∷ ts) = (if appears ts then own t else 0) + replaced_bytes ts

  abbrev is_there : Option (ℤ × ℤ) → Bool
  is_there none = false
  is_there (some v) = true

  first-lookup :
      (t : UserTraffic) (ts : List UserTraffic)
      → lookup uid (traffic_body (t ∷ ts))
        ≡ or_else
            (lookup uid (traffic_body ts))
            (if t.uid == uid then some (t.upload, t.download) else none)
  unfolding traffic_body traffic_from lookup insert
  first-lookup t ts = traffic_body-append uid (t ∷ []) ts

  there_or_first :
      (o : Option (ℤ × ℤ)) (b : Bool) (v : ℤ × ℤ)
      → (if b then true else is_there o) ≡ is_there (or_else o (if b then some v else none))
  there_or_first none true v = refl
  there_or_first none false v = refl
  there_or_first (some w) true v = refl
  there_or_first (some w) false v = refl

  measured_or_replaced :
      (o : Option (ℤ × ℤ)) (b : Bool) (v : ℤ × ℤ) (replaced all : ℕ)
      → measured o + replaced ≡ all
      → measured (or_else o (if b then some v else none))
          + ((if is_there o then if b then bytes v else 0 else 0) + replaced)
        ≡ (if b then bytes v else 0) + all
  measured_or_replaced none true v replaced all h = omega arith
  measured_or_replaced none false v replaced all h = omega arith
  measured_or_replaced (some w) true v replaced all h = omega arith
  measured_or_replaced (some w) false v replaced all h = omega arith

  appears_lem : (ts : List UserTraffic) → appears ts ≡ is_there (lookup uid (traffic_body ts))
  unfolding traffic_body traffic_from lookup
  appears_lem [] = refl
  appears_lem (t ∷ ts) =
      rw (first-lookup t ts, appears_lem ts)
        (there_or_first (lookup uid (traffic_body ts)) (t.uid == uid) (t.upload, t.download))

  sent_or_replaced : (ts : List UserTraffic) → sent_bytes ts + replaced_bytes ts ≡ sum own ts
  unfolding traffic_body traffic_from lookup
  sent_or_replaced [] = refl
  sent_or_replaced (t ∷ ts) =
      rw (first-lookup t ts, appears_lem ts)
        (measured_or_replaced (lookup uid (traffic_body ts)) (t.uid == uid) (t.upload, t.download)
          (replaced_bytes ts) (sum own ts) (sent_or_replaced ts))

  total_lem :
      (tss : List (List UserTraffic))
      → total sent_bytes tss + total replaced_bytes tss ≡ total (sum own) tss
  total_lem [] = refl
  total_lem (ts ∷ tss) = omega (arith, total_lem tss, sent_or_replaced ts)

  -- Over any rounds, whichever of them the panel refuses and whatever happens in the core between them:
  -- a user's bytes in the bodies of the requests that were not refused, the bytes of its entries that a
  -- later entry of the same list replaced in such a body, and the bytes that are pending make up what the
  -- core handed out for the user and what was pending before.
  pub rounds-received :
      {x : Externals} {core : Core} (rs : List (Round core)) (c : Controller x core)
      → let t = rounds rs c in
        total sent_bytes t.accepted
          + total replaced_bytes t.accepted
          + sum own t.state.pending_traffic
        ≡ sum own t.took + sum own c.pending_traffic
  rounds-received rs c =
      let t = rounds rs c in omega (arith, rounds-sum own rs c, total_lem t.accepted)
