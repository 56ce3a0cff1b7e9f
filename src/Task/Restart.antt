-- ===== src/Task/Restart.antt =====
-- What a restart from within an execution does to the loops, and an error after a close.
use ljfxznode.Common.{
  ℕ, suc, ◌≡◌, ◌≤◌, ◌∙◌, refl, Bool, true, false, some, List, [], ◌∷◌, arith, lookup, lookup-insert,
  nat_key, nat_beq, nat_beq_iff, contains,
}
use mathlib.Core.Path.{subst}
use ljfxznode.Task.{
  Task, Phase, top, selecting, executing, finished, working, close_stop, start, close, get_instance,
  set_phase, after_execution, step_phase, step_loop, deliver_to, step_instance, Action, do_start,
  do_close, do_loop, do_instance, act, act_all,
}

-- A running task whose channel is open, with two loops at their phases.
pub record TwoLoops (l k : ℕ) (p q : Phase) (t : Task) : Type 0 where
  pub running : t.running ≡ true
  pub old : lookup l t.loops ≡ some p
  pub new : lookup k t.loops ≡ some q
  pub open_stop : contains t.stop t.closed ≡ false

same_loop : (l : ℕ) → nat_beq l l ≡ true
same_loop l = (nat_beq_iff l l).1 refl

module _ (l k : ℕ) (apart : nat_beq l k ≡ false) (apart' : nat_beq k l ≡ false) where
  set_old : (p q p' : Phase) (t : Task) → TwoLoops l k p q t → TwoLoops l k p' q (set_phase l p' t)
  unfolding set_phase
  set_old p q p' t h = record {
    running = h.running;
    old = lookup-insert l l p' t.loops ∙ rw (same_loop l) refl;
    new = lookup-insert l k p' t.loops ∙ rw apart h.new;
    open_stop = h.open_stop;
  }

  set_new : (p q q' : Phase) (t : Task) → TwoLoops l k p q t → TwoLoops l k p q' (set_phase k q' t)
  unfolding set_phase
  set_new p q q' t h = record {
    running = h.running;
    old = lookup-insert k l q' t.loops ∙ rw apart' h.old;
    new = lookup-insert k k q' t.loops ∙ rw (same_loop k) refl;
    open_stop = h.open_stop;
  }

step_at :
    (timer : Bool) (l : ℕ) (p : Phase) (t : Task)
    → lookup l t.loops ≡ some p
    → step_loop timer l t ≡ step_phase timer l p t
unfolding step_loop
step_at timer l p t e = rw (e, step_loop) refl

after_close :
    (t : Task)
    → t.running ≡ true
    → contains t.stop t.closed ≡ false
    → close t ≡ record t { running = false; closed = t.stop ∷ t.closed }
unfolding close close_stop
after_close t r o = rw (r, o, close, close_stop) refl

-- A close and a start, as far as the loops are concerned.
reopened : Task → Task
reopened t = start false (record t { running = false; closed = t.stop ∷ t.closed })

reopened-TwoLoops :
    (l e : ℕ) (t : Task)
    → nat_beq (suc t.fresh) l ≡ false
    → lookup l t.loops ≡ some (executing e)
    → contains t.fresh (t.stop ∷ t.closed) ≡ false
    → TwoLoops l (suc t.fresh) (executing e) top (reopened t)
unfolding reopened start
reopened-TwoLoops l e t apart at_l new = record {
  running = refl;
  old = lookup-insert (suc t.fresh) l top t.loops ∙ rw apart at_l;
  new = lookup-insert (suc t.fresh) (suc t.fresh) top t.loops ∙ rw (same_loop (suc t.fresh)) refl;
  open_stop = new;
}

delivered_at :
    (k l n e : ℕ) (q : Phase) (t : Task)
    → nat_beq l n ≡ false
    → nat_beq n l ≡ false
    → get_instance k t.instances ≡ some (working l e)
    → TwoLoops l n (executing e) q t
    → TwoLoops l n (finished true) q (step_instance k true t)
unfolding step_instance
delivered_at k l n e q t apart apart' at_k h =
    rw (at_k, step_instance)
      (rw (h.old, deliver_to)
        (rw (same_loop e) (
          set_old l n apart apart' (executing e) q (finished true) _
            (record { running = h.running; old = h.old; new = h.new; open_stop = h.open_stop }))))

stop-step_instance : (k : ℕ) (ok : Bool) (t : Task) → (step_instance k ok t).stop ≡ t.stop
unfolding step_instance deliver_to set_phase
stop-step_instance k ok t = ground arith

-- The steps of the two loops to their next `select`.
settled :
    (l n : ℕ) (t : Task)
    → nat_beq l n ≡ false
    → nat_beq n l ≡ false
    → TwoLoops l n (finished true) top t
    → let u = step_loop false n (step_loop false l (step_loop false l t)) in
      TwoLoops l n (selecting t.stop) (selecting t.stop) u × (u.stop ≡ t.stop)
unfolding step_phase after_execution set_phase
settled l n t apart apart' h =
    let a = set_phase l top t in
    let b = set_phase l (selecting t.stop) a in
    let c = set_phase n (selecting t.stop) b in
    let ha = set_old l n apart apart' (finished true) top top t h in
    let hb = set_old l n apart apart' top top (selecting t.stop) a ha in
    let p : step_loop false l t ≡ a = step_at false l (finished true) t h.old in
    let q : step_loop false l a ≡ b = step_at false l top a ha.old in
    let r : step_loop false n b ≡ c = step_at false n top b hb.new in
    rw (p, q, r) (set_new l n apart apart' (selecting t.stop) top (selecting t.stop) b hb, refl)

-- The execution of a loop closes the task and starts it again, as `nodeInfoMonitor` does to change
-- its interval, and then returns without an error; both loops take their steps to the next `select`.
abbrev pub restart_within : ℕ → ℕ → ℕ → List Action
restart_within k l n =
    do_close
    ∷ do_start false
    ∷ do_instance k true
    ∷ do_loop false l
    ∷ do_loop false l
    ∷ do_loop false n
    ∷ []

-- A task that is restarted from within its own execution goes on with two loops: the old loop reads
-- the stop channel only after the execution, finds the new one, which is open, and waits on it
-- beside the new loop, so that nothing has stopped it.
pub restart_within_lem :
    (k l e : ℕ) (t : Task)
    → t.running ≡ true
    → contains t.stop t.closed ≡ false
    → contains t.fresh (t.stop ∷ t.closed) ≡ false
    → l ≤ t.fresh
    → get_instance k t.instances ≡ some (working l e)
    → lookup l t.loops ≡ some (executing e)
    → TwoLoops l
        (suc t.fresh)
        (selecting t.fresh)
        (selecting t.fresh)
        (act_all (restart_within k l (suc t.fresh)) t)
unfolding act_all act reopened start
restart_within_lem k l e t runs open_stop new older at_k at_l =
    let n = suc t.fresh in
    let apart : nat_beq l n ≡ false = ground arith in
    let apart' : nat_beq n l ≡ false = ground arith in
    let r = reopened t in
    let two =
      delivered_at k l n e top r apart apart' at_k (reopened-TwoLoops l e t apart' at_l new) in
    rw (after_close t runs open_stop) (
      subst
        (λ c.
          TwoLoops l n (selecting c) (selecting c)
            (step_loop false n (step_loop false l (step_loop false l (step_instance k true r)))))
        (stop-step_instance k true r) (settled l n (step_instance k true r) apart apart' two).0)
