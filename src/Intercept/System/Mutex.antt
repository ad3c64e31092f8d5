-- ===== src/Intercept/System/Mutex.antt =====
-- The semaphore: the gate shows one request at a time.
use shiv.Prelude.{
  one_if, count_p, count_p-set, count_p-append, ℕ, ◌+◌, ◌≤◌, ◌≡◌, refl, inl, inr, Bool, true, false,
  some, List, [], ◌∷◌, arith,
}
use shiv.Intercept.Pending.{Decision}
use shiv.Intercept.Hold.{
  new_intercept_gate, hold_step, set_flag, set_bypass, set_scope_filter, forward_all, Gate, Thread,
  Stage, check_enabled, recheck_enabled, recheck_bypass, enqueue, await, release,
}
use shiv.Intercept.System.{
  new_thread, step, Run-induction, System, Action, call_hold, run, decide, Run,
}
use shiv.Intercept.System.Inversion.{step-Ran, step-Replied, Ran, Replied}

-- The thread has sent to the semaphore and not yet received from it.
abbrev pub holds_stage : Stage → Bool
holds_stage (recheck_enabled b) = true
holds_stage (recheck_bypass b) = true
holds_stage (enqueue b) = true
holds_stage (await b) = true
holds_stage (release o) = true
holds_stage _ = false

abbrev pub holds : Thread → Bool
holds t = holds_stage t.stage

pub record SemCounts (s : System) : Type 0 where
  pub counted : count_p holds s.threads ≡ s.gate.sem
  pub bounded : s.gate.sem ≤ 1

-- What one step of a thread does to the semaphore, and to the thread's hold on it.
abbrev SemStep : Gate → Thread → Gate → Thread → Type 0
SemStep g t h u = (one_if (holds t) + h.sem ≡ one_if (holds u) + g.sem) × (g.sem ≤ 1 → h.sem ≤ 1)

hold_step-SemStep :
    (i : ℕ) (prefer : Bool) (st : Stage) (g : Gate) (t : Thread) {h : Gate} {u : Thread}
    → t.stage ≡ st
    → hold_step i prefer st g t ≡ some (h, u)
    → SemStep g t h u
unfolding hold_step
hold_step-SemStep i prefer check_enabled g t e k = ground arith
hold_step-SemStep i prefer _ g t e k = ground arith

run-SemCounts :
    (i : ℕ) (prefer : Bool) (s t : System) → Ran i prefer s t → SemCounts s → SemCounts t
run-SemCounts i prefer s t r v = rw r.result (
    ground (
      arith,
      hold_step-SemStep i prefer r.thread.stage s.gate r.thread refl r.moved,
      count_p-set holds s.threads i r.after r.at,
    ))

decide-SemCounts : (d : Decision) (s t : System) → Replied d s t → SemCounts s → SemCounts t
decide-SemCounts d s t r v = rw r.result (
    ground (
      arith,
      count_p-set holds s.threads r.index
          (record r.thread { pending = some (record r.pending { reply = some d }) }) r.at,
    ))

-- Every action keeps the count.
step-SemCounts : (a : Action) (s t : System) → step a s ≡ some t → SemCounts s → SemCounts t
unfolding step set_flag set_bypass set_scope_filter forward_all
step-SemCounts (call_hold req body) s t e v =
    ground (arith, count_p-append holds s.threads (new_thread req body ∷ []))
step-SemCounts (run i prefer) s t e v = run-SemCounts i prefer s t (step-Ran i prefer s t e) v
step-SemCounts (decide d) s t e v = elim (step-Replied d s t e) [
  | inl (hidden, same) ↦ rw same v
  | inr r ↦ decide-SemCounts d s t r v
]
step-SemCounts _ s t e v = ground arith

-- In every state that a schedule leads to, at most one call of `Hold` is between its send to the
-- semaphore and its receive from it, and the semaphore holds as many tokens as there are such calls.
pub Run-SemCounts : {trace : List Action} {s : System} → Run trace s → SemCounts s
unfolding new_intercept_gate
Run-SemCounts =
    Run-induction SemCounts (record { counted = refl; bounded = omega arith }) step-SemCounts
