-- ===== src/Intercept/System/Returns.antt =====
-- A call of `Hold` whose bypass channel is closed reaches its return by its own steps alone.
use shiv.Prelude.{
  Bool-cases, get_elem?, ℕ, zero, suc, ◌≤◌, ◌<◌, ◌≡◌, refl, inl, inr, true, some, List, ◌∷◌, arith,
}
use shiv.Intercept.Hold.{Gate, Thread, Stage, check_enabled}
use shiv.Intercept.System.{run, release_all, step, next, System, Action, Run}
use shiv.Intercept.System.Release.{
  sees_bypass, steps_left, has_returned, Run-released, captured, release_all-sees_bypass,
}
use shiv.Intercept.System.Channels.{Run-ChannelsValid}

-- The schedule in which call `i` alone takes `n` more steps.
unfoldable pub own_steps : ℕ → ℕ → List Action → List Action
own_steps i zero trace = trace
own_steps i (suc n) trace = own_steps i n (run i true ∷ trace)

stage_left : (g : Gate) (st : Stage) → sees_bypass g st ≡ true → 0 < steps_left st
stage_left g check_enabled h = ground arith
stage_left g _ h = ground arith

-- Where the call ends up: it has returned, after `steps` steps of its own.
pub record Returns (i bound : ℕ) (trace : List Action) : Type 0 where
  pub steps : ℕ
  pub bounded : steps ≤ bound
  pub state : System
  pub reached : Run (own_steps i steps trace) state
  pub thread : Thread
  pub at : get_elem? state.threads i ≡ some thread
  pub done : has_returned thread.stage ≡ true

Returns-suc :
    (i bound : ℕ) (trace : List Action)
    → Returns i bound (run i true ∷ trace)
    → Returns i (suc bound) trace
unfolding own_steps
Returns-suc i bound trace r = record {
  steps = suc r.steps;
  bounded = omega (arith, r.bounded);
  state = r.state;
  reached = r.reached;
  thread = r.thread;
  at = r.at;
  done = r.done;
}

Returns-within :
    (bound : ℕ) {trace : List Action} {s : System} (i : ℕ) (t : Thread)
    → Run trace s
    → get_elem? s.threads i ≡ some t
    → sees_bypass s.gate t.stage ≡ true
    → steps_left t.stage ≤ bound
    → Returns i bound trace
unfolding own_steps
Returns-within zero {s = s} i t r at closed le =
    absurd (omega (arith, stage_left s.gate t.stage closed))
Returns-within (suc bound) {trace} i t r at closed le =
    let (s', t', moved, at', less, near) = Run-released i true t r at closed in
    let r' = next (run i true) r moved in
    elim (Bool-cases (has_returned t'.stage)) [
      | inl back ↦ record {
        steps = 1;
        bounded = omega arith;
        state = s';
        reached = r';
        thread = t';
        at = at';
        done = back;
      }
      | inr inside ↦
          Returns-suc i bound trace
            (Returns-within bound i t' r' at' (ground arith) (omega (arith, less, le)))
    ]

at_most : (st : Stage) → steps_left st ≤ 5
at_most check_enabled = ground arith
at_most _ = ground arith

-- From any state that a schedule leads to, a call of `Hold` that has captured a closed bypass channel
-- has returned after at most five steps of its own, with no help of the user or of other calls.
pub Run-Returns :
    {trace : List Action} {s : System} (i : ℕ) (t : Thread)
    → Run trace s
    → get_elem? s.threads i ≡ some t
    → sees_bypass s.gate t.stage ≡ true
    → Returns i 5 trace
Run-Returns i t r at closed = Returns-within 5 i t r at closed (at_most t.stage)

-- `ForwardAll` frees every waiting call: once it has run, each call of `Hold` that has captured the
-- bypass channel in use before has returned after at most five steps of its own.
pub release_all-Returns :
    {trace : List Action} {s : System} (i : ℕ) (t : Thread)
    → Run trace s
    → get_elem? s.threads i ≡ some t
    → captured t.stage ≡ some s.gate.bypass
    → Returns i 5 (release_all ∷ trace)
unfolding step
release_all-Returns {s = s} i t r at holds_channel =
    Run-Returns i t (next release_all r refl) at
      ((release_all-sees_bypass s.gate t.stage (Run-ChannelsValid r) holds_channel).0)
