-- ===== src/Task/Tests.antt =====
-- The theorems on tasks at concrete inputs.
use ljfxznode.Common.{refl, true, false, List, [], ◌∷◌, arith, lookup, nat_key}
use ljfxznode.Task.{
  Task, selecting, executing, working, new_task, Action, do_start, do_close, do_loop, do_instance,
  act_all, get_instance,
}
use ljfxznode.Task.Flights.{OneFlight, act_all-new_task}
use ljfxznode.Task.Restart.{TwoLoops, restart_within, restart_within_lem}

abbrev first_round : List Action
first_round = do_start true ∷ do_loop false 2 ∷ do_instance 0 true ∷ do_close ∷ []

act_all-new_task_example : OneFlight (act_all first_round new_task)
act_all-new_task_example = act_all-new_task first_round

-- A task in its first execution.
abbrev executing_task : Task
executing_task = record {
  running = true;
  stop = 1;
  closed = [];
  in_flight = true;
  loops = (2, executing 3) ∷ [];
  instances = working 2 3 ∷ [];
  fresh = 4;
  panicked = false;
}

restart_within_lem_example :
    TwoLoops 2 5 (selecting 4) (selecting 4) (act_all (restart_within 0 2 5) executing_task)
unfolding lookup get_instance
restart_within_lem_example =
    restart_within_lem 0 2 3 executing_task refl refl refl (omega arith) refl refl
