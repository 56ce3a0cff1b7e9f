-- ===== src/Core/Dispatcher/Kicking.antt =====
-- `KickByUserIP` on the connections that `getLink` lets in.
use ljfxznode.Common.{
  ℕ, ◌+◌, ◌≡◌, ◌∙◌, ap, nat_beq_iff, refl, Bool, true, false, Option, none, some, String, Map,
  lookup, get, insert, lookup-insert, insert-IsMap, IsMap, contains, text_key, nat_key, nat_beq,
  ◌==◌, arith,
}
use ljfxznode.Limiter.State.{Externals}
use ljfxznode.Limiter.Limit.{check_limit}
use ljfxznode.Core.Links.{Link, LinkManager, no_links, add_link, close_by_ip}
use ljfxznode.Core.Links.Closing.{has_ip, close_by_ip_lem}
use ljfxznode.Core.Dispatcher.{
  Inbound, Client, Server, client_of, admit, start_kick, set_limiter, register, open_counter,
  link_client, get_link, kick_by_user_ip,
}

module _ {x : Externals} where
  -- The user's connections.
  abbrev pub manager_of : String → Server x → LinkManager
  manager_of email s = get email no_links s.link_managers

  start_kick_links :
      (p : ℕ) (kick : Option _) (s : Server x)
      → (start_kick p kick s).link_managers ≡ s.link_managers
  unfolding start_kick
  start_kick_links p none s = refl
  start_kick_links p (some kick) s = refl

  admit_passed :
      (now choice : ℕ) (tcp : Bool) (s : Server x) (c : Client) (p : ℕ)
      → lookup c.tag s.registry ≡ some p
      → let v = check_limit (s.limiters p) now choice c.email c.ip tcp in
        v.reject ≡ false
        → admit now choice tcp c s
          ≡ (start_kick p v.kick (set_limiter p v.state s), some (p, v.bucket))
  unfolding admit
  admit_passed now choice tcp s c p listed passed = rw (listed, admit, passed) refl

  admit_links :
      (now choice : ℕ) (tcp : Bool) (s : Server x) (c : Client) (p : ℕ)
      → lookup c.tag s.registry ≡ some p
      → let v = check_limit (s.limiters p) now choice c.email c.ip tcp in
        v.reject ≡ false → (admit now choice tcp c s).0.link_managers ≡ s.link_managers
  unfolding set_limiter
  admit_links now choice tcp s c p listed passed =
      let v = check_limit (s.limiters p) now choice c.email c.ip tcp in
      ap (λ r. r.0.link_managers) (admit_passed now choice tcp s c p listed passed)
      ∙ start_kick_links p v.kick (set_limiter p v.state s)

  -- A connection that is let in is the newest of its user's.
  admitted_links :
      (now choice : ℕ) (inbound : Option Inbound) (tcp : Bool) (s : Server x) (c : Client) (p : ℕ)
      → client_of inbound ≡ some c
      → lookup c.tag s.registry ≡ some p
      → let v = check_limit (s.limiters p) now choice c.email c.ip tcp in
        v.reject ≡ false
        → (get_link now choice inbound tcp s).0.link_managers
          ≡ insert c.email
              (add_link
                (s.fresh + 2)
                (record { ip = c.ip; reader = s.fresh })
                (manager_of c.email s))
              s.link_managers
  unfolding get_link link_client open_counter register
  admitted_links now choice inbound tcp s c p known listed passed =
      let s' : Server x = record s { fresh = s.fresh + 3 } in
      let e = ap (λ r. r.1) (admit_passed now choice tcp s' c p listed passed) in
      rw (known, get_link, e)
        (ap
          (λ (ms : Map String LinkManager).
            insert c.email
              (add_link (s.fresh + 2) (record { ip = c.ip; reader = s.fresh })
                (get c.email no_links ms))
              ms)
          (admit_links now choice tcp s' c p listed passed))

  kicked_links :
      (email ip : String) (m : LinkManager) (s : Server x)
      → (ip == "") ≡ false
      → lookup email s.link_managers ≡ some m
      → lookup email (kick_by_user_ip email ip s).link_managers ≡ some (close_by_ip ip m).0
  unfolding kick_by_user_ip
  kicked_links email ip m s named e =
      rw (named, e, kick_by_user_ip)
        (lookup-insert email email _ s.link_managers
          ∙ ground (arith, text_key.same_iff email email))

  -- A kick of the user at the address of a connection that was let in closes and forgets it, and
  -- leaves the user's connections from other addresses.
  pub kick_by_user_ip-get_link :
      (now choice : ℕ) (inbound : Option Inbound) (tcp : Bool) (s : Server x) (c : Client) (p : ℕ)
      → client_of inbound ≡ some c
      → lookup c.tag s.registry ≡ some p
      → (c.ip == "") ≡ false
      → IsMap (manager_of c.email s).links
      → let v = check_limit (s.limiters p) now choice c.email c.ip tcp in
        v.reject ≡ false
        → let s' = kick_by_user_ip c.email c.ip (get_link now choice inbound tcp s).0 in
          (m : LinkManager) × (lookup c.email s'.link_managers ≡ some m)
          × (lookup (s.fresh + 2) m.links ≡ none)
          × (contains (s.fresh + 2) m.closed ≡ true)
          × ((w : ℕ)
              → nat_beq (s.fresh + 2) w ≡ false
              → has_ip c.ip (lookup w (manager_of c.email s).links) ≡ false
              → lookup w m.links ≡ lookup w (manager_of c.email s).links)
  unfolding add_link
  kick_by_user_ip-get_link now choice inbound tcp s c p known listed named distinct passed =
      let new : Link = record { ip = c.ip; reader = s.fresh } in
      let old = manager_of c.email s in
      let m = add_link (s.fresh + 2) new old in
      let listed' : lookup c.email (get_link now choice inbound tcp s).0.link_managers ≡ some m =
        rw (admitted_links now choice inbound tcp s c p known listed passed) (
          lookup-insert c.email c.email m s.link_managers
          ∙ ground (arith, text_key.same_iff c.email c.email)) in
      let found : lookup (s.fresh + 2) m.links ≡ some new =
        lookup-insert (s.fresh + 2) (s.fresh + 2) new old.links
        ∙ ground (arith, nat_beq_iff (s.fresh + 2) (s.fresh + 2)) in
      let own : has_ip c.ip (lookup (s.fresh + 2) m.links) ≡ true =
        rw found ((text_key.same_iff c.ip c.ip).1 refl) in
      let closing = λ (w : ℕ).
        close_by_ip_lem w c.ip m named (insert-IsMap (s.fresh + 2) new old.links distinct) in
      (
        (close_by_ip c.ip m).0,
        kicked_links c.email c.ip m _ named listed',
        (closing (s.fresh + 2)).0 ∙ rw own refl,
        (closing (s.fresh + 2)).1 ∙ rw own refl,
        λ w other apart.
            let kept : lookup w m.links ≡ lookup w old.links =
              lookup-insert (s.fresh + 2) w new old.links ∙ rw other refl in
            (closing w).0 ∙ rw (kept, apart) refl,
      )
