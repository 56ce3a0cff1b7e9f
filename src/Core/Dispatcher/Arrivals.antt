-- ===== src/Core/Dispatcher/Arrivals.antt =====
-- A connection that arrives is counted by its limiter as one to be ended: `Dispatch`.
use ljfxznode.Common.{
  ℕ, ◌+◌, ◌≡◌, ◌∙◌, refl, inl, inr, Option, none, some, List, String, Map, text_key, nat_key, arith,
  Option-cases,
}
use ljfxznode.Limiter.State.{Externals, pure_ip}
use ljfxznode.Core.Dispatcher.{
  Inbound, Client, Server, client_of, admit, get_link, link_client, register, open_counter,
}
use ljfxznode.Core.Dispatcher.Routing.{Destination, deferred_of}
use ljfxznode.Core.Dispatcher.Sniffing.{Resolver, after_sniff}
use ljfxznode.Core.Dispatcher.Sessions.{
  Session, World, Sniff, sniffed, call_of, start_session, dispatch,
}
use ljfxznode.Core.Dispatcher.Pairing.{Users, open_sessions}
use ljfxznode.Core.Dispatcher.Balance.{held, Paired, Paired-eq, admit-Paired}

-- An address as Go prints it has no prefix `::ffff:`.
abbrev pub PlainInbound : Option Inbound → Type 0
PlainInbound none = Unit
PlainInbound (some inbound) = pure_ip inbound.ip ≡ inbound.ip

client_ip :
    (inbound : Option Inbound) {c : Client}
    → client_of inbound ≡ some c
    → PlainInbound inbound
    → pure_ip c.ip ≡ c.ip
unfolding client_of
client_ip none h plain = cc
client_ip (some inbound) {c} h plain = ground arith

-- What the sniffer finds does not change the network.
sniffed_tcp :
    (v : Resolver) (dest : Destination) (sniff : Sniff) → (sniffed v dest sniff).dest.tcp ≡ dest.tcp
unfolding sniffed after_sniff
sniffed_tcp v dest none = refl
sniffed_tcp v dest (some (request, none)) = refl
sniffed_tcp v dest (some (request, some result)) = ground arith

module _ (v : Resolver) (registry : Map String ℕ) where
  deferred_client :
      (inbound : Option Inbound) (dest : Destination) (forced : String) (sniff : Sniff)
      (l l' : Option ℕ) {c : Client}
      → client_of inbound ≡ some c
      → deferred_of (record (call_of v inbound dest forced sniff l) { limiter = l' }) registry
        ≡ held dest.tcp c registry
  unfolding deferred_of call_of
  deferred_client inbound dest forced sniff l l' {c} h = rw (sniffed_tcp v dest sniff, h) refl

  deferred_nobody :
      (inbound : Option Inbound) (dest : Destination) (forced : String) (sniff : Sniff)
      (l l' : Option ℕ)
      → client_of inbound ≡ none
      → deferred_of (record (call_of v inbound dest forced sniff l) { limiter = l' }) registry
        ≡ none
  unfolding deferred_of call_of
  deferred_nobody inbound dest forced sniff l l' h = rw h (ground arith)

abbrev pub counts : Map String ℕ → Users → List Session → ℕ → ℕ → String → ℕ
counts registry users sessions p u a = open_sessions registry users p u a sessions

module _ {x : Externals} (registry : Map String ℕ) (users : Users) where
  pub same_limiters-Paired :
      (n : ℕ → ℕ → String → ℕ) (s s' : Server x)
      → s'.registry ≡ s.registry
      → s'.limiters ≡ s.limiters
      → Paired registry users n s
      → Paired registry users n s'
  same_limiters-Paired n s s' e f h = record {
    same_registry = e ∙ h.same_registry;
    same_users = λ p. rw f (h.same_users p);
    counted = λ p u a. rw f (h.counted p u a);
  }

  linked_kept :
      (n : ℕ) (c : Client) (p : ℕ) (bucket : Option x.Bucket) (s : Server x)
      → ((link_client n c p bucket s).0.registry ≡ s.registry)
        × ((link_client n c p bucket s).0.limiters ≡ s.limiters)
  unfolding link_client open_counter register
  linked_kept n c p bucket s = (refl, refl)

  module _ (v : Resolver) (now choice : ℕ) (inbound : Option Inbound) (dest : Destination)
      (forced : String) (sniff : Sniff) where
    dispatch_nobody :
        (w : World x)
        → client_of inbound ≡ none
        → Paired registry users (counts registry users w.sessions) w.server
        → let w' = dispatch v now choice inbound dest forced sniff w in
          Paired registry users (counts registry users w'.sessions) w'.server
    unfolding dispatch get_link start_session open_sessions
    dispatch_nobody w nobody h =
        rw (nobody, get_link)
          (Paired-eq registry users _ _ _
            (λ p u a.
              rw (deferred_nobody v registry inbound dest forced sniff none none nobody)
                (omega arith))
            (same_limiters-Paired (counts registry users w.sessions) w.server _ refl refl h))

    dispatch_client :
        (w : World x) {c : Client}
        → client_of inbound ≡ some c
        → pure_ip c.ip ≡ c.ip
        → Paired registry users (counts registry users w.sessions) w.server
        → let w' = dispatch v now choice inbound dest forced sniff w in
          Paired registry users (counts registry users w'.sessions) w'.server
    unfolding dispatch get_link start_session open_sessions
    dispatch_client w {c} known plain h =
        let n = w.server.fresh in
        let s : Server x = record w.server { fresh = n + 3 } in
        let r = admit now choice dest.tcp c s in
        let h' =
          admit-Paired registry users (counts registry users w.sessions) now choice dest.tcp c s
            plain
            (same_limiters-Paired (counts registry users w.sessions) w.server s refl refl h) in
        elim (Option-cases r.1) [
          | inl refusal ↦
              rw (known, get_link, refusal)
                (Paired-eq registry users _ _ _ (λ p u a. omega arith) (rw refusal at h'))
          | inr ((p, bucket), admitted) ↦
              let kept = linked_kept n c p bucket r.0 in
              rw (known, get_link, admitted)
                (same_limiters-Paired _ r.0 _ kept.0 kept.1 (
                  Paired-eq registry users _ _ _
                    (λ q u a.
                      rw (deferred_client v registry inbound dest forced sniff none (some p) known)
                        refl)
                    (rw admitted at h')))
        ]

    pub dispatch-Paired :
        (w : World x)
        → PlainInbound inbound
        → Paired registry users (counts registry users w.sessions) w.server
        → let w' = dispatch v now choice inbound dest forced sniff w in
          Paired registry users (counts registry users w'.sessions) w'.server
    dispatch-Paired w plain h = elim (Option-cases (client_of inbound)) [
      | inl nobody ↦ dispatch_nobody w nobody h
      | inr (c, known) ↦ dispatch_client w known (client_ip inbound known plain) h
    ]
