-- ===== src/Core/Dispatcher/Tests.antt =====
-- The dispatcher's theorems at concrete inputs, and a run of it.
use ljfxznode.Common.{
  ℕ, ◌+◌, ◌≡◌, refl, true, false, none, some, Option, List, [], ◌∷◌, ◌++◌, String, ℤ, pos, lookup,
  insert, contains, nat_beq, text_key, nat_key, ◌==◌,
}
use ljfxznode.Panel.{UserInfo}
use ljfxznode.Limiter.State.{Externals, pure_ip}
use ljfxznode.Limiter.Refs.{shard_open, shard_close}
use ljfxznode.Limiter.Gate.{check_device_gate}
use ljfxznode.Limiter.Cooldown.{in_cooldown}
use ljfxznode.Limiter.Rules.{check_domain_rule, check_protocol_rule}
use ljfxznode.Limiter.Conn.{conn_opened, conn_closed, close_of_user, try_open_conn}
use ljfxznode.Limiter.Conn.Counts.{active_count}
use ljfxznode.Limiter.Users.{new_limiter}
use ljfxznode.Limiter.Limit.{check_limit, user_bucket}
use ljfxznode.Core.Links.{LinkManager}
use ljfxznode.Core.Links.Closing.{has_ip}
use ljfxznode.Core.Dispatcher.{
  Inbound, Client, up, down, TransportLink, pipe, Server, linked, get_link, wrap_link,
  kick_by_user_ip,
}
use ljfxznode.Core.Dispatcher.Routing.{
  Destination, domain, Routes, by_route, Call, deferred_of, routed_dispatch,
}
use ljfxznode.Core.Dispatcher.Picks.{RulesPass, IsPicked, routed_dispatch-IsPicked}
use ljfxznode.Core.Dispatcher.Sniffing.{Resolver}
use ljfxznode.Core.Dispatcher.Sessions.{arrive, route, finish, Event, run}
use ljfxznode.Core.Dispatcher.Pairing.{open_sessions}
use ljfxznode.Core.Dispatcher.History.{run-active_count}
use ljfxznode.Core.Dispatcher.Wrapping.{
  Effect, count, reach, drain, write, read, waits, get_link-write, wrap_link-flow,
}
use ljfxznode.Core.Dispatcher.Kicking.{manager_of, kick_by_user_ip-get_link}

program : Unit {0}
unfolding pure_ip lookup insert new_limiter check_limit get_link wrap_link routed_dispatch run write
    read open_sessions kick_by_user_ip try_open_conn in_cooldown check_device_gate user_bucket
    conn_opened shard_open check_domain_rule check_protocol_rule deferred_of conn_closed
    close_of_user shard_close
program = tt

abbrev tiny : Externals
tiny = record {
  Bucket = ℤ;
  new_bucket_with_quantum = λ _ capacity _. capacity;
  Regexp = String;
  compile = λ s. some s;
  match_string = λ re s. re == s;
}

abbrev bob : UserInfo
bob = record { id = 4; uuid = "b"; speed_limit = pos 8; device_limit = pos 2 }

-- One node with one user, and no connection.
abbrev quiet : Server tiny
quiet = record {
  registry = ("n", 1) ∷ [];
  limiters = λ _. new_limiter tiny "n" (record { speed_limit = pos 100 }) (bob ∷ []) [];
  started = [];
  link_managers = [];
  counters = [];
  fresh = 0;
}

abbrev from_bob : Option Inbound
from_bob = some (record { tag = "n"; email = some "n|b"; ip = "1.1.1.1" })

abbrev bob_client : Client
bob_client = record { email = "n|b"; tag = "n"; ip = "1.1.1.1" }

abbrev site : Destination
site = record { tcp = true; address = domain "example.org" }

abbrev direct : Routes
direct = record {
  Handler = String;
  get_handler = λ tag. some tag;
  get_default_handler = some "direct";
  tag = λ h. h;
  pick_route = some (λ _ _. some "proxy");
}

abbrev no_dns : Resolver
no_dns = record { is_ip_in_ip_pool = none; parse_address = domain }

abbrev visit : Event
visit = arrive 0 0 from_bob site "" none

abbrev two_visits : List Event
two_visits = visit ∷ visit ∷ route 0 ∷ finish 0 ∷ []

run-active_count_example :
    let w = run no_dns direct two_visits (record { server = quiet; sessions = [] }) in
    active_count (w.server.limiters 1) 4 "1.1.1.1"
    ≡ open_sessions quiet.registry
        (λ q. (quiet.limiters q).user_limit_info)
        1
        4
        "1.1.1.1"
        w.sessions
unfolding program
run-active_count_example =
    run-active_count no_dns direct two_visits quiet 1 4 "1.1.1.1" (refl, (refl, tt)) (λ q i b. refl)

one_left :
    let w = run no_dns direct two_visits (record { server = quiet; sessions = [] }) in
    active_count (w.server.limiters 1) 4 "1.1.1.1" ≡ 1
unfolding program
one_left = refl

abbrev bob_call : Call
bob_call = record {
  inbound = from_bob;
  dest = site;
  limiter = some 1;
  protocol = "tls";
  forced = "";
}

routed_dispatch-IsPicked_example :
    RulesPass direct bob_call quiet × IsPicked direct bob_call by_route "proxy"
unfolding program
routed_dispatch-IsPicked_example =
    routed_dispatch-IsPicked direct bob_call quiet by_route "proxy" refl

get_link-write_example :
    (near : TransportLink tiny) × (far : TransportLink tiny) × ((get_link 0 0 from_bob true quiet).1
      ≡ linked near far (some 1))
    × ((n : ℕ)
        → write near.writer n
          ≡ count up bob_client n
            ∷ (waits (check_limit (quiet.limiters 1) 0 0 "n|b" "1.1.1.1" true).bucket n
                ++ (reach 0 n ∷ [])))
    × ((n : ℕ)
        → write far.writer n
          ≡ count down bob_client n
            ∷ (waits (check_limit (quiet.limiters 1) 0 0 "n|b" "1.1.1.1" true).bucket n
                ++ (reach (0 + 1) n ∷ [])))
    × ((got : Option ℕ) → read near.reader got ≡ (drain (0 + 1) ∷ [], got))
    × ((got : Option ℕ) → read far.reader got ≡ (drain 0 ∷ [], got))
unfolding program
get_link-write_example = get_link-write 0 0 from_bob true quiet bob_client 1 refl refl refl

abbrev made : TransportLink tiny
made = record { reader = pipe 7; writer = pipe 8 }

wrap_link-flow_example :
    (wrapped : TransportLink tiny) × ((wrap_link 0 0 from_bob true made quiet).1
      ≡ some (wrapped, some 1))
    × ((n : ℕ)
        → write wrapped.writer n
          ≡ count down bob_client n
            ∷ (waits (check_limit (quiet.limiters 1) 0 0 "n|b" "1.1.1.1" true).bucket n
                ++ write made.writer n))
    × ((n : ℕ) (done : List (Effect tiny))
        → read made.reader (some n) ≡ (done, some n)
        → (n == 0) ≡ false
        → read wrapped.reader (some n) ≡ (
          done
              ++ (waits (check_limit (quiet.limiters 1) 0 0 "n|b" "1.1.1.1" true).bucket n
                  ++ (count up bob_client n ∷ [])),
          some n,
        ))
unfolding program
wrap_link-flow_example = wrap_link-flow 0 0 from_bob true made quiet bob_client 1 refl refl refl

kick_by_user_ip-get_link_example :
    (m : LinkManager) × (lookup "n|b"
        (kick_by_user_ip "n|b" "1.1.1.1" (get_link 0 0 from_bob true quiet).0).link_managers
      ≡ some m)
    × (lookup 2 m.links ≡ none)
    × (contains 2 m.closed ≡ true)
    × ((w : ℕ)
        → nat_beq 2 w ≡ false
        → has_ip "1.1.1.1" (lookup w (manager_of "n|b" quiet).links) ≡ false
        → lookup w m.links ≡ lookup w (manager_of "n|b" quiet).links)
unfolding program
kick_by_user_ip-get_link_example =
    kick_by_user_ip-get_link 0 0 from_bob true quiet bob_client 1 refl refl refl tt refl
