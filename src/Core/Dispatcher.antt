-- ===== src/Core/Dispatcher.antt =====
-- core/xray/app/dispatcher/default.go: the way of a connection from its inbound to the limiter, the
-- link manager and the traffic counters. Pipes, writers and limiters are numbers that stand for their
-- pointers; `limiters` is the heap of the limiters and `registry` the map of limiter/limiter.go.
pub mod Routing
pub mod Picks
pub mod Sniffing
pub mod Sniffers
pub mod CachedReader
pub mod Content
pub mod Sessions
pub mod Wrapping
pub mod Kicking
pub mod Pairing
pub mod Balance
pub mod Arrivals
pub mod Departures
pub mod History
mod Tests
use ljfxznode.Common.{
  ℕ, ◌+◌, Bool, true, false, not, ◌&&◌, Option, none, some, List, [], ◌∷◌, String, Map, lookup, get,
  insert, text_key, nat_key, ◌==◌, if◌then◌else◌,
}
use ljfxznode.Limiter.State.{Externals, Limiter, set_shard}
use ljfxznode.Limiter.Conn.{Kick}
use ljfxznode.Limiter.Limit.{Verdict, check_limit}
use ljfxznode.Core.Links.{Link, LinkManager, no_links, add_link, close_by_ip}
use ljfxznode.Core.Xray.{Counters, get_counter}

-- The parts of `session.Inbound` that are read; `email` is that of the user, if there is one.
pub record Inbound : Type 0 where
  pub tag : String
  pub email : Option String
  pub ip : String

-- A user of a node, at an address.
pub record Client : Type 0 where
  pub email : String
  pub tag : String
  pub ip : String

pub data Direction : Type 0 where
  up down : Direction

-- What a writer is wrapped in, and the pipe below; `managed` carries the `ManagedWriter`'s pointer,
-- `counted` a `SizeStatWriter` with the counter that it adds to.
pub data Writer (x : Externals) : Type 0 where
  pipe : ℕ → Writer x
  managed : ℕ → Writer x → Writer x
  limited : x.Bucket → Writer x → Writer x
  counted : Direction → Client → Writer x → Writer x

-- `counted` is a `CounterReader`.
pub data Reader (x : Externals) : Type 0 where
  pipe : ℕ → Reader x
  limited : x.Bucket → Reader x → Reader x
  counted : Direction → Client → Reader x → Reader x

-- `transport.Link`
pub record TransportLink (x : Externals) : Type 0 where
  pub reader : Reader x
  pub writer : Writer x

-- `started` are the kicks in goroutines that have not run yet, each with its limiter.
pub record Server (x : Externals) : Type 0 where
  pub registry : Map String ℕ
  pub limiters : ℕ → Limiter x
  pub started : List (ℕ × Kick)
  pub link_managers : Map String LinkManager
  pub counters : Map String Counters
  -- the first number that stands for no pointer
  pub fresh : ℕ

-- The guard of `getLink`, `DispatchLink` and `routedDispatch`: a user with an email, on an inbound with
-- a tag.
unfoldable pub client_of : Option Inbound → Option Client
client_of none = none
client_of (some inbound) = elim inbound.email [
  | none ↦ none
  | some email ↦
      if not (email == "") && not (inbound.tag == "")
      then some (record { email = email; tag = inbound.tag; ip = inbound.ip })
      else none
]

module _ {x : Externals} where
  unfoldable pub set_limiter : ℕ → Limiter x → Server x → Server x
  set_limiter p l s = record s { limiters = set_shard s.limiters p l }

  unfoldable pub start_kick : ℕ → Option Kick → Server x → Server x
  start_kick p none s = s
  start_kick p (some kick) s = record s { started = (p, kick) ∷ s.started }

  -- `GetLimiter` and `CheckLimit`: the limiter and the bucket of a connection that is let in.
  unfoldable pub admit : ℕ → ℕ → Bool → Client → Server x → Server x × Option (ℕ × Option x.Bucket)
  unfolding set_limiter start_kick
  admit now choice tcp c s = elim (lookup c.tag s.registry) [
    | none ↦ (s, none)
    | some p ↦
        let v = check_limit (s.limiters p) now choice c.email c.ip tcp in
        let s' = start_kick p v.kick (set_limiter p v.state s) in
        if v.reject then (s', none) else (s', some (p, v.bucket))
  ]

  -- `LinkManagers.LoadOrStore(user.Email, lm)` and `AddLink`
  unfoldable pub register : ℕ → ℕ → Client → Server x → Server x
  unfolding add_link
  register writer reader c s =
      let m = get c.email no_links s.link_managers in
      record s {
        link_managers =
            insert c.email (add_link writer (record { ip = c.ip; reader = reader }) m)
              s.link_managers;
      }

  -- `Counter.LoadOrStore(sessionInbound.Tag, t)` and `GetCounter`
  unfoldable pub open_counter : Client → Server x → Server x
  unfolding get_counter
  open_counter c s = record s {
    counters = insert c.tag (get_counter c.email (get c.tag [] s.counters)).1 s.counters;
  }

  -- `if w != nil`: a rate limited writer.
  unfoldable pub limit_writer : Option x.Bucket → Writer x → Writer x
  limit_writer none w = w
  limit_writer (some b) w = limited b w

  unfoldable pub limit_reader : Option x.Bucket → Reader x → Reader x
  limit_reader none r = r
  limit_reader (some b) r = limited b r

-- The result of `getLink`: the two links and the limiter, or the pipes whose writers are closed and
-- whose readers are interrupted, in order.
pub data Linked (x : Externals) : Type 0 where
  refused : List ℕ → List ℕ → Linked x
  linked : TransportLink x → TransportLink x → Option ℕ → Linked x

module _ {x : Externals} where
  -- The links of a connection of a user that is let in; the uplink pipe is `n`, the downlink `n + 1`.
  unfoldable pub link_client : ℕ → Client → ℕ → Option x.Bucket → Server x → Server x × Linked x
  unfolding register open_counter limit_writer
  link_client n c p bucket s = (
    open_counter c (register (n + 2) n c s),
    linked
        (record {
          reader = pipe (n + 1);
          writer = counted up c (limit_writer bucket (managed (n + 2) (pipe n)));
        })
        (record { reader = pipe n; writer = counted down c (limit_writer bucket (pipe (n + 1))) })
        (some p),
  )

  -- `getLink`
  unfoldable pub get_link : ℕ → ℕ → Option Inbound → Bool → Server x → Server x × Linked x
  unfolding client_of admit link_client
  get_link now choice inbound tcp s =
      let n = s.fresh in
      let s' = record s { fresh = n + 3 } in
      elim (client_of inbound) [
        | none ↦ (
          s',
          linked (record { reader = pipe (n + 1); writer = pipe n })
              (record { reader = pipe n; writer = pipe (n + 1) }) none,
        )
        | some c ↦
            let (s'', admitted) = admit now choice tcp c s' in
            elim admitted [
              | none ↦ (s'', refused ((n + 1) ∷ n ∷ []) (n ∷ (n + 1) ∷ []))
              | some (p, bucket) ↦ link_client n c p bucket s''
            ]
      ]

  -- The part of `DispatchLink` before the sniffer, on a link that the inbound made: `none` is a
  -- refusal, after which the link's writer is closed and its reader interrupted.
  unfoldable pub wrap_link :
      ℕ
      → ℕ
      → Option Inbound
      → Bool
      → TransportLink x
      → Server x
      → Server x × Option (TransportLink x × Option ℕ)
  unfolding client_of admit register open_counter limit_writer limit_reader
  wrap_link now choice inbound tcp link s =
      let n = s.fresh in
      let s' = record s { fresh = n + 2 } in
      elim (client_of inbound) [
        | none ↦ (s', some (link, none))
        | some c ↦
            let (s'', admitted) = admit now choice tcp c s' in
            elim admitted [
              | none ↦ (s'', none)
              | some (p, bucket) ↦ (
                register n (n + 1) c (open_counter c s''),
                some (
                  record {
                    reader = counted up c (limit_reader bucket link.reader);
                    writer = counted down c (limit_writer bucket (managed n link.writer));
                  },
                  some p,
                ),
              )
            ]
      ]

  -- `KickByUserIP`
  unfoldable pub kick_by_user_ip : String → String → Server x → Server x
  unfolding close_by_ip
  kick_by_user_ip email ip s = if ip == "" then s else (elim (lookup email s.link_managers) [
    | none ↦ s
    | some m ↦ record s { link_managers = insert email (close_by_ip ip m).0 s.link_managers }
  ])
