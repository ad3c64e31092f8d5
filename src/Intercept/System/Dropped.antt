-- ===== src/Intercept/System/Dropped.antt =====
-- What the gate hands to the bus.
use shiv.Prelude.{get_elem?, ℕ, ◌≡◌, refl, inl, inr, true, false, some, List, arith}
use shiv.Intercept.Pending.{Decision}
use shiv.Intercept.Hold.{unmodified, handle_request, Outcome, Thread, returned}
use shiv.Intercept.System.{System, Action, Run}
use shiv.Intercept.System.Outcomes.{IsDue, Run-IsDue, Made}

due_dropped :
    (trace : List Action) (passed o : Outcome)
    → passed.forward ≡ true
    → IsDue trace passed o
    → (handle_request o).dropped ≡ true
    → (d : Decision) × Made d trace × (d.forward ≡ false)
unfolding handle_request
due_dropped trace passed o p (inl e) drops = absurd (ground arith)
due_dropped trace passed o p (inr (d, m, e)) drops = (d, m, ground arith)

-- As a middleware, the gate drops a request only if the user decided to drop one: no schedule of
-- switching, releasing and waiting makes it do so.
pub handle_request-dropped :
    {trace : List Action} {s : System} (i : ℕ) (t : Thread) (o : Outcome)
    → Run trace s
    → get_elem? s.threads i ≡ some t
    → t.stage ≡ returned o
    → (handle_request o).dropped ≡ true
    → (d : Decision) × Made d trace × (d.forward ≡ false)
handle_request-dropped {trace} i t o r at e =
    due_dropped trace (unmodified t) o refl (Run-IsDue i t o r at e)
