-- ===== src/Intercept/System.antt =====
-- The gate with every goroutine that touches it: calls of `Hold`, the two critical sections of
-- `SetEnabled`, and the intercept tab (internal/ui/intercept.go), which takes requests from the
-- queue and answers the one that it shows. One action is one shared access.
mod Inversion
pub mod Mutex
pub mod Channels
pub mod Release
pub mod Returns
pub mod Stranded
pub mod Dropped
pub mod Outcomes
use shiv.Prelude.{
  ℕ, Bool, true, false, Option, none, some, List, [], ◌∷◌, ◌++◌, ◌≡◌, get_elem?, set, if◌then◌else◌,
}
use shiv.Text.{Bytes}
use shiv.Http.Message.{Request}
use shiv.Intercept.Pending.{Decision, PendingRequest, is_done}
use shiv.Intercept.Hold.{
  Gate, Thread, Stage, check_enabled, hold_step, set_flag, set_bypass, set_scope_filter,
  forward_all, new_intercept_gate,
}

-- `ui` is the argument of a `SetEnabled` that is between its two critical sections, `callbacks`
-- the requests that `watchQueue` has handed to the main goroutine, and `shown` the tab's `pending`.
pub record System : Type 0 where
  pub gate : Gate
  pub threads : List Thread
  pub ui : Option Bool
  pub callbacks : List ℕ
  pub shown : Option ℕ

pub data Action : Type 0 where
  call_hold : Request → Bytes → Action
  run : ℕ → Bool → Action
  enable_flag : Bool → Action
  enable_bypass : Action
  scope_filter : Option (Bytes → Bool) → Action
  release_all : Action
  watch_queue : Action
  callback : Action
  decide : Decision → Action

abbrev pub initial : System
initial = record {
  gate = new_intercept_gate;
  threads = [];
  ui = none;
  callbacks = [];
  shown = none;
}

-- A call of `Hold` at its start.
abbrev pub new_thread : Request → Bytes → Thread
new_thread req body = record { request = req; body = body; stage = check_enabled; pending = none }

run_thread : ℕ → Bool → System → Option Thread → Option System
run_thread i prefer s none = none
run_thread i prefer s (some t) = elim (hold_step i prefer t.stage s.gate t) [
  | none ↦ none
  | some (g, u) ↦ some (record s { gate = g; threads = set s.threads i u })
]

thread_done : Option Thread → Bool
unfolding is_done
thread_done none = false
thread_done (some t) = elim t.pending [ none ↦ false | some p ↦ is_done p ]

-- `for pending := range Queue()`, with the first `IsDone` test
watch : System → List ℕ → Option System
unfolding thread_done
watch s [] = none
watch s (i ∷ rest) =
    if thread_done (get_elem? s.threads i)
    then some (record s { gate = record s.gate { queue = rest } })
    else some
        (record s { gate = record s.gate { queue = rest }; callbacks = s.callbacks ++ i ∷ [] })

-- The callback of `fyne.Do`, with the second `IsDone` test and `showRequest`.
call_back : System → List ℕ → Option System
unfolding thread_done
call_back s [] = none
call_back s (i ∷ rest) =
    if thread_done (get_elem? s.threads i)
    then some (record s { callbacks = rest })
    else some (record s { callbacks = rest; shown = some i })

-- `pending.Reply <- d`, on a channel with one place
reply_to : Decision → Thread → Option PendingRequest → Option Thread
reply_to d t none = none
reply_to d t (some p) = elim p.reply [
  | some _ ↦ none
  | none ↦ some (record t { pending = some (record p { reply = some d }) })
]

reply_thread : Decision → System → ℕ → Option Thread → Option System
unfolding reply_to
reply_thread d s i none = none
reply_thread d s i (some t) = elim (reply_to d t t.pending) [
  | none ↦ none
  | some u ↦ some (record s { threads = set s.threads i u; shown = none })
]

decide_shown : Decision → System → Option ℕ → Option System
unfolding reply_thread
decide_shown d s none = some s
decide_shown d s (some i) = reply_thread d s i (get_elem? s.threads i)

start_enable : Bool → System → Option Bool → Option System
start_enable v s none = some (record s { gate = set_flag v s.gate; ui = some v })
start_enable v s (some _) = none

finish_enable : System → Option Bool → Option System
finish_enable s none = none
finish_enable s (some v) = some (record s { gate = set_bypass v s.gate; ui = none })

-- The state after an action; `none` where the action blocks or cannot happen.
unfoldable pub step : Action → System → Option System
unfolding run_thread watch call_back decide_shown start_enable finish_enable
step (call_hold req body) s = some (record s { threads = s.threads ++ new_thread req body ∷ [] })
step (run i prefer) s = run_thread i prefer s (get_elem? s.threads i)
step (enable_flag v) s = start_enable v s s.ui
step enable_bypass s = finish_enable s s.ui
step (scope_filter fn) s = some (record s { gate = set_scope_filter fn s.gate })
step release_all s = some (record s { gate = forward_all s.gate })
step watch_queue s = watch s s.gate.queue
step callback s = call_back s s.callbacks
step (decide d) s = decide_shown d s s.shown

-- The states that some schedule leads to, with the actions taken, the last one first.
pub data Run : List Action → System → Type 0 where
  start : Run [] initial
  next :
      {trace : List Action} {s t : System} (a : Action)
      → Run trace s
      → step a s ≡ some t
      → Run (a ∷ trace) t

-- An invariant of each step holds in every state of a run.
pub Run-induction {ℓ} :
    (P : System → Type ℓ)
    → P initial
    → ((a : Action) (s t : System) → step a s ≡ some t → P s → P t)
    → {trace : List Action} {s : System} → Run trace s
    → P s
Run-induction P p0 keep start = p0
Run-induction P p0 keep (next a r e) = keep a _ _ e (Run-induction P p0 keep r)
