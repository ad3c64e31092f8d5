-- ===== src/Intercept/Tests.antt =====
-- Concrete schedules of the intercept gate, and the theorems at work on them.
use shiv.Prelude.{
  Option-cases, ◌≡◌, refl, inl, inr, Bool, true, false, ◌&&◌, Option, none, some, List, [], ◌∷◌,
  arith,
}
use shiv.Text.{codes}
use shiv.Http.Message.{Request}
use shiv.Intercept.Pending.{new_pending_request, Decision}
use shiv.Intercept.Hold.{
  new_intercept_gate, is_closed, unmodified, hold_step, set_flag, set_bypass, forward_all,
  handle_request, Thread, await, returned,
}
use shiv.Intercept.System.{
  initial, step, System, Action, call_hold, run, enable_flag, enable_bypass, release_all,
  watch_queue, callback, decide, Run, start, next,
}
use shiv.Intercept.System.Mutex.{Run-SemCounts, SemCounts}
use shiv.Intercept.System.Channels.{Run-ChannelsValid, ChannelsValid}
use shiv.Intercept.System.Stranded.{now, later, enable_twice_strands, Unanswered}
use shiv.Intercept.System.Returns.{Run-Returns, Returns}
use shiv.Intercept.System.Dropped.{handle_request-dropped}
use shiv.Intercept.System.Outcomes.{decided, IsDue, Run-IsDue, Made}

after : Action → System → Option System → System
after a s none = s
after a s (some t) = t

-- The state after a schedule, the last action first; an action that blocks is left out.
abbrev schedule : List Action → System
schedule [] = initial
schedule (a ∷ trace) = after a (schedule trace) (step a (schedule trace))

happens : Option System → Bool
happens none = false
happens (some t) = true

-- No action of the schedule blocks.
abbrev possible : List Action → Bool
possible [] = true
possible (a ∷ trace) = happens (step a (schedule trace)) && possible trace

step-after :
    (a : Action) (s : System) → happens (step a s) ≡ true → step a s ≡ some (after a s (step a s))
unfolding happens after
step-after a s h = elim (Option-cases (step a s)) [
  | inl none_left ↦ absurd (ground arith)
  | inr (t, e) ↦ ground (arith, e)
]

schedule-Run : (trace : List Action) → possible trace ≡ true → Run trace (schedule trace)
schedule-Run [] h = start
schedule-Run (a ∷ trace) h =
    next a (schedule-Run trace (ground arith)) (step-after a (schedule trace) (ground arith))

abbrev page : Request
page = record {
  method = codes "GET";
  url = codes "http://a.test/";
  host = codes "a.test";
  header = [];
}

abbrev edited : Decision
edited = record { forward = true; request = page; body = codes "edited" }

-- The gate is on, and a call of `Hold` waits for the user.
abbrev waiting : List Action
waiting =
    run 0 true
    ∷ run 0 true
    ∷ run 0 true
    ∷ run 0 true
    ∷ run 0 true
    ∷ run 0 true
    ∷ run 0 true
    ∷ call_hold page []
    ∷ enable_bypass
    ∷ enable_flag true
    ∷ []

-- The user answers, and the call returns.
abbrev answered_run : List Action
answered_run = run 0 true ∷ run 0 true ∷ decide edited ∷ callback ∷ watch_queue ∷ waiting

-- The gate is switched off instead.
abbrev switched_off : List Action
switched_off = enable_bypass ∷ enable_flag false ∷ waiting

waiting-possible : possible waiting ≡ true
unfolding happens after step hold_step set_flag set_bypass new_intercept_gate is_closed
waiting-possible = refl

answered_run-possible : possible answered_run ≡ true
unfolding happens after step hold_step set_flag set_bypass new_intercept_gate is_closed
    new_pending_request
answered_run-possible = refl

switched_off-possible : possible switched_off ≡ true
unfolding happens after step hold_step set_flag set_bypass new_intercept_gate is_closed
switched_off-possible = refl

-- The call of `Hold` while it waits, and after its return.
abbrev waiter : Thread
waiter = record {
  request = page;
  body = [];
  stage = await 1;
  pending = some (new_pending_request page []);
}

abbrev left : Thread
left = record waiter {
  stage = returned (decided edited);
  pending = some (record (new_pending_request page []) { reply = none });
}

Run-SemCounts_example : SemCounts (schedule waiting)
Run-SemCounts_example = Run-SemCounts (schedule-Run waiting waiting-possible)

Run-ChannelsValid_example : ChannelsValid (schedule switched_off).gate
Run-ChannelsValid_example = Run-ChannelsValid (schedule-Run switched_off switched_off-possible)

Run-Returns_example : Returns 0 5 switched_off
unfolding happens after step hold_step set_flag set_bypass new_intercept_gate is_closed
Run-Returns_example =
    Run-Returns 0 waiter (schedule-Run switched_off switched_off-possible) refl refl

-- The user switches the gate on again, then releases all requests, and switches it off.
abbrev again : List Action
again = enable_flag true ∷ waiting

again-possible : possible again ≡ true
unfolding happens after step hold_step set_flag set_bypass new_intercept_gate is_closed
again-possible = refl

abbrev released : List Action
released = enable_bypass ∷ enable_flag false ∷ release_all ∷ enable_bypass ∷ again

released-Unanswered : Unanswered 0 (schedule (enable_bypass ∷ again)) (schedule released)
unfolding happens after step hold_step set_flag set_bypass forward_all new_intercept_gate is_closed
released-Unanswered =
    later enable_bypass (later (enable_flag false) (later release_all now tt refl) tt refl) tt refl

enable_twice_strands_example : step (run 0 true) (schedule released) ≡ none
unfolding happens after step hold_step set_flag set_bypass forward_all new_intercept_gate is_closed
    new_pending_request
enable_twice_strands_example =
    enable_twice_strands 0 true waiter (new_pending_request page [])
      (schedule-Run again again-possible) refl refl refl refl refl refl refl released-Unanswered

Run-IsDue_example : IsDue answered_run (unmodified left) (decided edited)
unfolding happens after step hold_step set_flag set_bypass new_intercept_gate is_closed
    new_pending_request
Run-IsDue_example =
    Run-IsDue 0 left (decided edited) (schedule-Run answered_run answered_run-possible) refl refl

-- The same schedule with a user who drops the request.
abbrev rejected : Decision
rejected = record { forward = false; request = page; body = [] }

abbrev dropped_run : List Action
dropped_run = run 0 true ∷ run 0 true ∷ decide rejected ∷ callback ∷ watch_queue ∷ waiting

dropped_run-possible : possible dropped_run ≡ true
unfolding happens after step hold_step set_flag set_bypass new_intercept_gate is_closed
    new_pending_request
dropped_run-possible = refl

handle_request-dropped_example : (d : Decision) × Made d dropped_run × (d.forward ≡ false)
unfolding happens after step hold_step set_flag set_bypass new_intercept_gate is_closed
    new_pending_request handle_request
handle_request-dropped_example =
    handle_request-dropped 0 (record left { stage = returned (decided rejected) })
      (decided rejected) (schedule-Run dropped_run dropped_run-possible) refl refl refl
