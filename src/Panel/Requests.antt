-- ===== src/Panel/Requests.antt =====
-- The body of the request of `ReportUserTraffic` in api/panel/user.go.
use ljfxznode.Common.{
  ℕ, ◌≡◌, refl, ap, sym, ◌∙◌, Option, none, some, List, [], ◌∷◌, ◌++◌, ℤ, Map, lookup, insert,
  lookup-insert, nat_key, ◌==◌, Bool-cases, inl, inr,
}
use ljfxznode.Panel.{UserTraffic}

-- `map[int][]int64`: uid to the bytes of upload and download.
abbrev pub TrafficBody : Type 0
TrafficBody = Map ℕ (ℤ × ℤ)

abbrev pub add_traffic : UserTraffic → TrafficBody → TrafficBody
add_traffic t m = insert t.uid (t.upload, t.download) m

-- The loop, on the map so far.
unfoldable pub traffic_from : TrafficBody → List UserTraffic → TrafficBody
traffic_from m [] = m
traffic_from m (t ∷ ts) = traffic_from (add_traffic t m) ts

unfoldable pub traffic_body : List UserTraffic → TrafficBody
unfolding traffic_from
traffic_body ts = traffic_from [] ts

abbrev pub or_else {ℓ} : {A : Type ℓ} → Option A → Option A → Option A
or_else none o = o
or_else (some a) o = some a

module _ {ℓ} {A : Type ℓ} where
  or_else_assoc : (o p q : Option A) → or_else (or_else o p) q ≡ or_else o (or_else p q)
  or_else_assoc none p q = refl
  or_else_assoc (some a) p q = refl

added_or_old :
    (uid : ℕ) (t : UserTraffic) (m : TrafficBody)
    → lookup uid (add_traffic t m) ≡ or_else (lookup uid (add_traffic t [])) (lookup uid m)
unfolding lookup
added_or_old uid t m =
    let v : ℤ × ℤ = (t.upload, t.download) in
    elim (Bool-cases (t.uid == uid))
      as (λ _.
        lookup uid (add_traffic t m) ≡ or_else (lookup uid (add_traffic t [])) (lookup uid m)) [
          | inl e ↦ rw (lookup-insert t.uid uid v m, lookup-insert t.uid uid v [], e) refl
          | inr e ↦ rw (lookup-insert t.uid uid v m, lookup-insert t.uid uid v [], e) refl
        ]

traffic_from-lookup :
    (uid : ℕ) (m : TrafficBody) (ts : List UserTraffic)
    → lookup uid (traffic_from m ts) ≡ or_else (lookup uid (traffic_body ts)) (lookup uid m)
unfolding traffic_from traffic_body lookup
traffic_from-lookup uid m [] = refl
traffic_from-lookup uid m (t ∷ ts) =
    traffic_from-lookup uid (add_traffic t m) ts
    ∙ (ap (or_else (lookup uid (traffic_body ts))) (added_or_old uid t m)
        ∙ (sym (
              or_else_assoc (lookup uid (traffic_body ts)) (lookup uid (add_traffic t []))
                (lookup uid m))
            ∙ ap (λ o. or_else o (lookup uid m))
                (sym (traffic_from-lookup uid (add_traffic t []) ts))))

traffic_from-append :
    (m : TrafficBody) (ts us : List UserTraffic)
    → traffic_from m (ts ++ us) ≡ traffic_from (traffic_from m ts) us
unfolding traffic_from
traffic_from-append m [] us = refl
traffic_from-append m (t ∷ ts) us = traffic_from-append (add_traffic t m) ts us

-- Of two lists one after the other, a user's bytes are those of the second where it has any.
pub traffic_body-append :
    (uid : ℕ) (ts us : List UserTraffic)
    → lookup uid (traffic_body (ts ++ us))
      ≡ or_else (lookup uid (traffic_body us)) (lookup uid (traffic_body ts))
unfolding traffic_body
traffic_body-append uid ts us =
    ap (lookup uid) (traffic_from-append [] ts us) ∙ traffic_from-lookup uid (traffic_body ts) us
