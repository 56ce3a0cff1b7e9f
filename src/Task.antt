-- ===== src/Task.antt =====
-- common/task/task.go: a task that runs at intervals. The goroutines are interleaved one step at a
-- time; a mutex's section is one step. Channels, loops and executions are numbers.
pub mod Flights
pub mod Restart
mod Tests
use ljfxznode.Common.{
  ℕ, zero, suc, ◌+◌, Bool, true, false, not, Option, none, some, List, [], ◌∷◌, nat_key, nat_beq,
  contains, if◌then◌else◌, Map, lookup, insert, delete,
}

-- Where a loop stands: before it looks at the stop channel, in the `select`, before an execution, in
-- the `select` of an execution, and with the execution's result.
pub data Phase : Type 0 where
  top : Phase
  selecting : ℕ → Phase
  ready : Phase
  executing : ℕ → Phase
  finished : Bool → Phase

-- A goroutine that runs `Execute`: it belongs to a loop and an execution, and after it has delivered
-- its result it clears `inFlight`.
pub data Instance : Type 0 where
  working : ℕ → ℕ → Instance
  delivered : Instance

pub record Task : Type 0 where
  pub running : Bool
  pub stop : ℕ
  pub closed : List ℕ
  pub in_flight : Bool
  pub loops : Map ℕ Phase
  pub instances : List Instance
  -- the first number not used
  pub fresh : ℕ
  -- a closed channel was closed again
  pub panicked : Bool

abbrev pub new_task : Task
new_task = record {
  running = false;
  stop = 0;
  closed = [];
  in_flight = false;
  loops = [];
  instances = [];
  fresh = 1;
  panicked = false;
}

-- `close(t.stop)`
unfoldable pub close_stop : Task → Task
close_stop t =
    if contains t.stop t.closed
    then record t { panicked = true }
    else record t { closed = t.stop ∷ t.closed }

unfoldable pub start : Bool → Task → Task
start first t = if t.running then t else record t {
  running = true;
  stop = t.fresh;
  loops = insert (suc t.fresh) (if first then ready else top) t.loops;
  fresh = suc (suc t.fresh);
}

unfoldable pub close : Task → Task
unfolding close_stop
close t = if t.running then close_stop (record t { running = false }) else t

unfoldable pub get_instance : ℕ → List Instance → Option Instance
get_instance k [] = none
get_instance zero (i ∷ others) = some i
get_instance (suc k) (i ∷ others) = get_instance k others

unfoldable pub remove_at : ℕ → List Instance → List Instance
remove_at k [] = []
remove_at zero (i ∷ others) = others
remove_at (suc k) (i ∷ others) = i ∷ remove_at k others

unfoldable pub set_at : ℕ → Instance → List Instance → List Instance
set_at k new [] = []
set_at zero new (i ∷ others) = new ∷ others
set_at (suc k) new (i ∷ others) = i ∷ set_at k new others

unfoldable pub set_phase : ℕ → Phase → Task → Task
set_phase l phase t = record t { loops = insert l phase t.loops }

-- The start of `executeWithTimeout`, which skips the round while an execution is in flight.
unfoldable pub execute : ℕ → Task → Task
unfolding set_phase
execute l t =
    if t.in_flight
    then set_phase l top t
    else set_phase l (executing t.fresh) (record t {
      in_flight = true;
      instances = working l t.fresh ∷ t.instances;
      fresh = suc t.fresh;
    })

-- After the execution: an error ends the loop and closes the channel.
unfoldable pub after_execution : ℕ → Bool → Task → Task
unfolding set_phase close_stop
after_execution l ok t =
    if ok
    then set_phase l top t
    else close_stop (record t { running = false; loops = delete l t.loops })

-- The next step of a loop; `timer` chooses the timer's case where both can come.
unfoldable pub step_phase : Bool → ℕ → Phase → Task → Task
unfolding set_phase execute after_execution
step_phase timer l top t = set_phase l (selecting t.stop) t
step_phase timer l (selecting ch) t =
    if timer
    then set_phase l ready t
    else (if contains ch t.closed then record t { loops = delete l t.loops } else t)
step_phase timer l ready t = execute l t
step_phase timer l (executing e) t = if timer then set_phase l top t else t
step_phase timer l (finished ok) t = after_execution l ok t

unfoldable pub step_loop : Bool → ℕ → Task → Task
unfolding step_phase
step_loop timer l t = elim (lookup l t.loops) [ none ↦ t | some phase ↦ step_phase timer l phase t ]

-- `done <- result`: a loop that still waits for this execution takes it.
unfoldable pub deliver_to : ℕ → ℕ → Bool → Option Phase → Task → Task
unfolding set_phase
deliver_to l e ok (some (executing e')) t = if nat_beq e e' then set_phase l (finished ok) t else t
deliver_to l e ok _ t = t

-- The next step of an execution: it delivers its result, or it clears `inFlight` and ends.
unfoldable pub step_instance : ℕ → Bool → Task → Task
unfolding get_instance set_at remove_at deliver_to
step_instance k ok t = elim (get_instance k t.instances) [
  | none ↦ t
  | some (working l e) ↦
      deliver_to l e ok (lookup l t.loops) (record t { instances = set_at k delivered t.instances })
  | some delivered ↦ record t { in_flight = false; instances = remove_at k t.instances }
]

pub data Action : Type 0 where
  do_start : Bool → Action
  do_close : Action
  do_loop : Bool → ℕ → Action
  do_instance : ℕ → Bool → Action

unfoldable pub act : Action → Task → Task
unfolding start close step_loop step_instance
act (do_start first) t = start first t
act do_close t = close t
act (do_loop timer l) t = step_loop timer l t
act (do_instance k ok) t = step_instance k ok t

unfoldable pub act_all : List Action → Task → Task
unfolding act
act_all [] t = t
act_all (a ∷ rest) t = act_all rest (act a t)
