-- ===== src/Core/Dispatcher/Pairing.antt =====
-- How many of the connections of core/xray/app/dispatcher/default.go a limiter is still to be told the
-- end of.
use ljfxznode.Common.{
  ℕ, zero, suc, ◌+◌, ◌≡◌, Bool, false, ◌&&◌, Option, none, some, List, [], ◌∷◌, String, Map, lookup,
  text_key, nat_key, nat_beq, arith, if◌then◌else◌,
}
use ljfxznode.Limiter.State.{UserLimitInfo}
use ljfxznode.Limiter.Conn.Counts.{closes}
use ljfxznode.Core.Dispatcher.Routing.{Deferred, deferred_of}
use ljfxznode.Core.Dispatcher.Sessions.{Session, waiting, serving, get_at, remove_at, set_at}

-- The users of each limiter.
abbrev pub Users : Type 0
Users = ℕ → Map String UserLimitInfo

-- Whether the deferred call lowers the count of a user and an address in a limiter.
abbrev pub lowers : Users → Option Deferred → ℕ → ℕ → String → Bool
lowers users none p u a = false
lowers users (some d) p u a = nat_beq d.limiter p && closes (lookup d.email (users p)) d.ip u a

abbrev pub ending : Map String ℕ → Session → Option Deferred
ending registry (waiting call) = deferred_of call registry
ending registry (serving d) = d

module _ (registry : Map String ℕ) (users : Users) (p u : ℕ) (a : String) where
  abbrev pub counts_of : Session → ℕ
  counts_of s = if lowers users (ending registry s) p u a then 1 else 0

  -- The connections of a user from an address that a limiter is to be told the end of.
  unfoldable pub open_sessions : List Session → ℕ
  open_sessions [] = 0
  open_sessions (s ∷ rest) = counts_of s + open_sessions rest

  pub open_sessions-remove_at :
      (k : ℕ) (sessions : List Session) {s : Session}
      → get_at k sessions ≡ some s
      → open_sessions (remove_at k sessions) + counts_of s ≡ open_sessions sessions
  unfolding open_sessions get_at remove_at
  open_sessions-remove_at zero [] h = cc
  open_sessions-remove_at (suc k) [] h = cc
  open_sessions-remove_at zero (t ∷ rest) {s} h = ground arith
  open_sessions-remove_at (suc k) (t ∷ rest) {s} h =
      ground (arith, open_sessions-remove_at k rest {s = s} h)

  pub open_sessions-set_at :
      (k : ℕ) (new : Session) (sessions : List Session) {s : Session}
      → get_at k sessions ≡ some s
      → counts_of new ≡ counts_of s
      → open_sessions (set_at k new sessions) ≡ open_sessions sessions
  unfolding open_sessions get_at set_at
  open_sessions-set_at zero new [] h e = cc
  open_sessions-set_at (suc k) new [] h e = cc
  open_sessions-set_at zero new (t ∷ rest) {s} h e = ground arith
  open_sessions-set_at (suc k) new (t ∷ rest) {s} h e =
      ground (arith, open_sessions-set_at k new rest {s = s} h e)
