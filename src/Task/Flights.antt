-- ===== src/Task/Flights.antt =====
-- At most one execution of a task runs at a time.
use ljfxznode.Common.{
  ℕ, zero, suc, ◌+◌, ◌≡◌, ◌∙◌, refl, inl, inr, Bool, true, false, Option, none, some, List, [], ◌∷◌,
  arith, Bool-cases, Option-cases, length, lookup, nat_key,
}
use ljfxznode.Task.{
  Task, Phase, top, selecting, ready, executing, finished, Instance, working, delivered, new_task,
  close_stop, start, close, get_instance, remove_at, set_at, set_phase, execute, after_execution,
  step_phase, step_loop, deliver_to, step_instance, Action, do_start, do_close, do_loop,
  do_instance, act, act_all,
}

-- The flag counts the executions.
abbrev pub flights : Bool → ℕ
flights true = 1
flights false = 0

unfoldable pub OneFlight : Task → Type 0
OneFlight t = length t.instances ≡ flights t.in_flight

length-remove_at :
    (k : ℕ) (ins : List Instance) (i : Instance)
    → get_instance k ins ≡ some i
    → length (remove_at k ins) + 1 ≡ length ins
unfolding get_instance remove_at
length-remove_at zero [] i e = cc
length-remove_at (suc k) [] i e = cc
length-remove_at zero (j ∷ ins) i e = omega arith
length-remove_at (suc k) (j ∷ ins) i e = omega (arith, length-remove_at k ins i e)

length-set_at : (k : ℕ) (i : Instance) (ins : List Instance) → length (set_at k i ins) ≡ length ins
unfolding set_at
length-set_at zero i [] = refl
length-set_at (suc k) i [] = refl
length-set_at zero i (j ∷ ins) = refl
length-set_at (suc k) i (j ∷ ins) = omega (arith, length-set_at k i ins)

close_stop-OneFlight : (t : Task) → OneFlight t → OneFlight (close_stop t)
unfolding close_stop OneFlight
close_stop-OneFlight t h = ground arith

start-OneFlight : (first : Bool) (t : Task) → OneFlight t → OneFlight (start first t)
unfolding start OneFlight
start-OneFlight first t h = ground arith

close-OneFlight : (t : Task) → OneFlight t → OneFlight (close t)
unfolding close close_stop OneFlight
close-OneFlight t h = ground arith

execute-OneFlight : (l : ℕ) (t : Task) → OneFlight t → OneFlight (execute l t)
unfolding execute set_phase OneFlight
execute-OneFlight l t h = elim (Bool-cases t.in_flight) [
  | inl e ↦ rw (e, execute) (rw e at h)
  | inr e ↦ rw (e, execute) (omega (arith, rw e at h))
]

step_phase-OneFlight :
    (timer : Bool) (l : ℕ) (phase : Phase) (t : Task)
    → OneFlight t
    → OneFlight (step_phase timer l phase t)
unfolding step_phase set_phase after_execution close_stop OneFlight
step_phase-OneFlight timer l top t h = h
step_phase-OneFlight timer l (selecting ch) t h = ground arith
step_phase-OneFlight timer l ready t h = execute-OneFlight l t h
step_phase-OneFlight timer l (executing e) t h = ground arith
step_phase-OneFlight timer l (finished ok) t h = ground arith

step_loop-OneFlight :
    (timer : Bool) (l : ℕ) (t : Task) → OneFlight t → OneFlight (step_loop timer l t)
unfolding step_loop
step_loop-OneFlight timer l t h = elim (Option-cases (lookup l t.loops)) [
  | inl e ↦ rw (e, step_loop) h
  | inr (phase, e) ↦ rw (e, step_loop) (step_phase-OneFlight timer l phase t h)
]

deliver_to-OneFlight :
    (l e : ℕ) (ok : Bool) (phase : Option Phase) (t : Task)
    → OneFlight t
    → OneFlight (deliver_to l e ok phase t)
unfolding deliver_to set_phase OneFlight
deliver_to-OneFlight l e ok none t h = h
deliver_to-OneFlight l e ok (some top) t h = h
deliver_to-OneFlight l e ok (some (selecting ch)) t h = h
deliver_to-OneFlight l e ok (some ready) t h = h
deliver_to-OneFlight l e ok (some (finished b)) t h = h
deliver_to-OneFlight l e ok (some (executing e')) t h = ground arith

landed : (n m : ℕ) (b : Bool) → n + 1 ≡ m → m ≡ flights b → n ≡ 0
landed n m true p q = omega arith
landed n m false p q = omega arith

step_instance-OneFlight :
    (k : ℕ) (ok : Bool) (t : Task) → OneFlight t → OneFlight (step_instance k ok t)
unfolding step_instance OneFlight
step_instance-OneFlight k ok t h = elim (Option-cases (get_instance k t.instances)) [
  | inl e ↦ rw (e, step_instance) h
  | inr (working l n, e) ↦
      rw (e, step_instance)
        (deliver_to-OneFlight l n ok (lookup l t.loops)
          (record t { instances = set_at k delivered t.instances })
          (length-set_at k delivered t.instances ∙ h))
  | inr (delivered, e) ↦
      rw (e, step_instance) (landed _ _ t.in_flight (length-remove_at k t.instances _ e) h)
]

act-OneFlight : (a : Action) (t : Task) → OneFlight t → OneFlight (act a t)
unfolding act
act-OneFlight (do_start first) t h = start-OneFlight first t h
act-OneFlight do_close t h = close-OneFlight t h
act-OneFlight (do_loop timer l) t h = step_loop-OneFlight timer l t h
act-OneFlight (do_instance k ok) t h = step_instance-OneFlight k ok t h

all-OneFlight : (acts : List Action) (t : Task) → OneFlight t → OneFlight (act_all acts t)
unfolding act_all
all-OneFlight [] t h = h
all-OneFlight (a ∷ rest) t h = all-OneFlight rest (act a t) (act-OneFlight a t h)

-- From a new task, in every interleaving of starts, closes, timers, timeouts and results, at most
-- one execution is under way, and the flag says whether there is one.
pub act_all-new_task : (acts : List Action) → OneFlight (act_all acts new_task)
unfolding OneFlight
act_all-new_task acts = all-OneFlight acts new_task refl
