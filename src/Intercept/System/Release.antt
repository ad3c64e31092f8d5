-- ===== src/Intercept/System/Release.antt =====
-- A call of `Hold` whose bypass channel is closed returns by its own steps, whatever the user does.
use shiv.Prelude.{
  Option-cases, get_elem?, set, get_elem?-set_self, one_if, one_if-le-count_p, ℕ, ◌≤◌, ◌<◌, ◌≡◌,
  ◌≢◌, inl, inr, Bool, true, false, ◌||◌, Option, none, some, List, arith,
}
use shiv.Intercept.Hold.{
  is_closed, hold_step, set_bypass, forward_all, Gate, Thread, Stage, check_enabled, acquire,
  recheck_enabled, recheck_bypass, enqueue, await, release, returned,
}
use shiv.Intercept.System.{step, System, Action, run, Run}
use shiv.Intercept.System.Mutex.{holds_stage, holds, Run-SemCounts}
use shiv.Intercept.System.Channels.{ChannelsValid}

-- The thread has captured a bypass channel that is closed, or is leaving already.
abbrev pub sees_bypass : Gate → Stage → Bool
sees_bypass g (acquire b) = is_closed g b
sees_bypass g (recheck_enabled b) = is_closed g b
sees_bypass g (recheck_bypass b) = is_closed g b
sees_bypass g (enqueue b) = is_closed g b
sees_bypass g (await b) = is_closed g b
sees_bypass g (release o) = true
sees_bypass g _ = false

-- The steps that such a thread still takes, at most.
abbrev pub steps_left : Stage → ℕ
steps_left (acquire b) = 5
steps_left (recheck_enabled b) = 4
steps_left (recheck_bypass b) = 3
steps_left (enqueue b) = 3
steps_left (await b) = 2
steps_left (release o) = 1
steps_left _ = 0

abbrev pub has_returned : Stage → Bool
has_returned (returned o) = true
has_returned _ = false

not_blocked :
    (i : ℕ) (prefer : Bool) (st : Stage) (g : Gate) (t : Thread)
    → sees_bypass g st ≡ true
    → one_if (holds_stage st) ≤ g.sem
    → hold_step i prefer st g t ≢ none
unfolding hold_step
not_blocked i prefer check_enabled g t closed sem e = ground arith
not_blocked i prefer _ g t closed sem e = ground arith

-- What a step of such a thread brings: it is nearer to its return, and still not to be blocked.
abbrev Nearer : Stage → Gate → Stage → Type 0
Nearer st h st' =
    (steps_left st' < steps_left st) × ((sees_bypass h st' || has_returned st') ≡ true)

hold_step-Nearer :
    (i : ℕ) (prefer : Bool) (st : Stage) (g : Gate) (t : Thread) {h : Gate} {u : Thread}
    → sees_bypass g st ≡ true
    → hold_step i prefer st g t ≡ some (h, u)
    → Nearer st h u.stage
unfolding hold_step is_closed
hold_step-Nearer i prefer check_enabled g t closed e = ground arith
hold_step-Nearer i prefer _ g t closed e = ground arith

-- A thread that has captured a closed bypass channel is not blocked, and each of its steps brings
-- it nearer to its return, of which it is at most five steps away.
pub Run-released :
    {trace : List Action} {s : System} (i : ℕ) (prefer : Bool) (t : Thread)
    → Run trace s
    → get_elem? s.threads i ≡ some t
    → sees_bypass s.gate t.stage ≡ true
    → (s' : System) × (t' : Thread) × (step (run i prefer) s ≡ some s')
      × (get_elem? s'.threads i ≡ some t')
      × (steps_left t'.stage < steps_left t.stage)
      × ((sees_bypass s'.gate t'.stage || has_returned t'.stage) ≡ true)
unfolding step
Run-released {s = s} i prefer t r at closed =
    let sems = Run-SemCounts r in
    let holding : one_if (holds t) ≤ s.gate.sem =
      omega (arith, one_if-le-count_p holds s.threads i at, sems.counted) in
    elim (Option-cases (hold_step i prefer t.stage s.gate t)) [
      | inl blocked ↦ absurd (not_blocked i prefer t.stage s.gate t closed holding blocked)
      | inr ((h, u), moved) ↦
          let near = hold_step-Nearer i prefer t.stage s.gate t closed moved in
          (
            record s { gate = h; threads = set s.threads i u },
            u,
            ground arith,
            get_elem?-set_self s.threads i u at,
            near.0,
            near.1,
          )
    ]

-- The channel that a thread has captured, while it can still block on it.
abbrev pub captured : Stage → Option ℕ
captured (acquire b) = some b
captured (recheck_enabled b) = some b
captured (recheck_bypass b) = some b
captured (enqueue b) = some b
captured (await b) = some b
captured _ = none

-- `ForwardAll`, and the end of `SetEnabled(false)`, close the channel of every thread that captured
-- the one in use.
pub release_all-sees_bypass :
    (g : Gate) (st : Stage)
    → ChannelsValid g
    → captured st ≡ some g.bypass
    → (sees_bypass (forward_all g) st ≡ true) × (sees_bypass (set_bypass false g) st ≡ true)
unfolding forward_all set_bypass is_closed
release_all-sees_bypass g check_enabled v e = ground arith
release_all-sees_bypass g _ v e = ground arith
