-- ===== src/Intercept/System/Outcomes.antt =====
-- What `Hold` returns: the request as it came, or what the user decided for it.
use mathlib.Core.Path.{subst}
use shiv.Prelude.{
  Bool-cases, Option-cases, get_elem?, All, All-append, All-set, All-get, All-map, ℕ, ◌≡◌, refl,
  ◌⊎◌, inl, inr, Bool, not, ◌&&◌, Option, none, some, List, [], ◌∷◌, ◌++◌, arith,
}
use shiv.Intercept.Pending.{new_pending_request, Decision, PendingRequest}
use shiv.Intercept.Hold.{
  is_closed, unmodified, cancelled, give_up, hold_step, Gate, Outcome, Thread, Stage, check_enabled,
  check_scope, capture, acquire, recheck_enabled, recheck_bypass, enqueue, await, release, returned,
}
use shiv.Intercept.System.{
  new_thread, step, System, Action, call_hold, run, decide, Run, start, next,
}
use shiv.Intercept.System.Inversion.{step-Ran, step-Replied}

-- The user made the decision in one of the actions.
pub data Made (d : Decision) : List Action → Type 0 where
  here : {trace : List Action} → Made d (decide d ∷ trace)
  later : {a : Action} {trace : List Action} → Made d trace → Made d (a ∷ trace)

abbrev pub decided : Decision → Outcome
decided d = record { request = d.request; body = d.body; forward = d.forward }

-- The outcome is the one that passes the request through, or a decision of the user.
abbrev pub IsDue : List Action → Outcome → Outcome → Type 0
IsDue trace passed o = (o ≡ passed) ⊎ ((d : Decision) × Made d trace × (o ≡ decided d))

abbrev StageDue : List Action → Outcome → Stage → Type 0
StageDue trace t (release o) = IsDue trace t o
StageDue trace t (returned o) = IsDue trace t o
StageDue trace t _ = Unit

abbrev ReplyDue : List Action → Option PendingRequest → Type 0
ReplyDue trace none = Unit
ReplyDue trace (some p) = (d : Decision) → p.reply ≡ some d → Made d trace

abbrev ThreadDue : List Action → Thread → Type 0
ThreadDue trace t = StageDue trace (unmodified t) t.stage × ReplyDue trace t.pending

StageDue-later :
    (a : Action) (trace : List Action) (t : Outcome) (st : Stage)
    → StageDue trace t st
    → StageDue (a ∷ trace) t st
StageDue-later a trace t (release o) (inl e) = inl e
StageDue-later a trace t (release o) (inr (d, m, e)) = inr (d, later m, e)
StageDue-later a trace t (returned o) (inl e) = inl e
StageDue-later a trace t (returned o) (inr (d, m, e)) = inr (d, later m, e)
StageDue-later a trace t _ h = tt

ReplyDue-later :
    (a : Action) (trace : List Action) (p : Option PendingRequest)
    → ReplyDue trace p
    → ReplyDue (a ∷ trace) p
ReplyDue-later a trace none h = tt
ReplyDue-later a trace (some p) h = λ d e. later (h d e)

ThreadDue-later :
    (a : Action) (trace : List Action) (t : Thread) → ThreadDue trace t → ThreadDue (a ∷ trace) t
ThreadDue-later a trace t h =
    (StageDue-later a trace (unmodified t) t.stage h.0, ReplyDue-later a trace t.pending h.1)

new_request_unanswered :
    (trace : List Action) (t : Thread)
    → ReplyDue trace (some (new_pending_request t.request t.body))
unfolding new_pending_request
new_request_unanswered trace t d e = absurd (ground arith)

enqueue_moves :
    (i : ℕ) (prefer : Bool) (b : ℕ) (g : Gate) (t : Thread) {h : Gate} {u : Thread}
    → hold_step i prefer (enqueue b) g t ≡ some (h, u)
    → (u ≡ record t { stage = await b }) ⊎ (u ≡ give_up t)
unfolding hold_step
enqueue_moves i prefer b g t k = ground arith

-- The thread received the user's reply.
record Answered (t u : Thread) : Type 0 where
  pending : PendingRequest
  decision : Decision
  made : t.pending ≡ some pending
  answer : pending.reply ≡ some decision
  result : u ≡ record t {
    pending = some (record pending { reply = none });
    stage = release (decided decision);
  }

await_moves :
    (i : ℕ) (prefer : Bool) (b : ℕ) (g : Gate) (t : Thread) {h : Gate} {u : Thread}
    → hold_step i prefer (await b) g t ≡ some (h, u)
    → (u ≡ give_up t) ⊎ Answered t u
unfolding hold_step
await_moves i prefer b g t {u = u} k = elim (Option-cases t.pending) [
  | inl unmade ↦ inl (ground arith)
  | inr (p, made) ↦ elim (Option-cases p.reply) [
    | inl empty ↦ inl (ground arith)
    | inr (d, answer) ↦ elim (Bool-cases (is_closed g b && not prefer)) [
      | inl gives_up ↦ inl (ground arith)
      | inr takes ↦ inr (record {
        pending = p;
        decision = d;
        made = made;
        answer = answer;
        result = ground arith;
      })
    ]
  ]
]

cancelled-ReplyDue :
    (trace : List Action) (p : Option PendingRequest)
    → ReplyDue trace p
    → ReplyDue trace (cancelled p)
unfolding cancelled
cancelled-ReplyDue trace none h = tt
cancelled-ReplyDue trace (some p) h = λ d e. h d (ground arith)

give_up-ThreadDue :
    (trace : List Action) (t : Thread) → ReplyDue trace t.pending → ThreadDue trace (give_up t)
unfolding give_up
give_up-ThreadDue trace t h = (inl refl, cancelled-ReplyDue trace t.pending h)

answered :
    (trace : List Action) (t : Thread) {u : Thread} (m : Answered t u)
    → ReplyDue trace t.pending
    → Made m.decision trace
answered trace t m h = (subst (ReplyDue trace) m.made h) m.decision m.answer

hold_step-ThreadDue :
    (trace : List Action) (i : ℕ) (prefer : Bool) (st : Stage) (g : Gate) (t : Thread) {h : Gate}
    {u : Thread}
    → t.stage ≡ st
    → hold_step i prefer st g t ≡ some (h, u)
    → ThreadDue trace t
    → ThreadDue trace u
unfolding hold_step
hold_step-ThreadDue trace i prefer check_enabled g t e k v = ground arith
hold_step-ThreadDue trace i prefer check_scope g t e k v = ground arith
hold_step-ThreadDue trace i prefer capture g t e k v = ground arith
hold_step-ThreadDue trace i prefer (acquire b) g t e k v = ground arith
hold_step-ThreadDue trace i prefer (recheck_enabled b) g t e k v = ground arith
hold_step-ThreadDue trace i prefer (recheck_bypass b) g t {u = u} e k v =
    elim (Bool-cases (is_closed g b)) [
      | inl shut ↦
          let q : u ≡ record t { stage = release (unmodified t) } = ground arith in
          rw q (inl refl, v.1)
      | inr still_open ↦
          let q : u ≡ record t {
            stage = enqueue b;
            pending = some (new_pending_request t.request t.body);
          } =
            ground arith in
          rw q (tt, new_request_unanswered trace t)
    ]
hold_step-ThreadDue trace i prefer (enqueue b) g t e k v = elim (enqueue_moves i prefer b g t k) [
  | inl q ↦ rw q (tt, v.1)
  | inr q ↦ rw q (give_up-ThreadDue trace t v.1)
]
hold_step-ThreadDue trace i prefer (await b) g t e k v = elim (await_moves i prefer b g t k) [
  | inl q ↦ rw q (give_up-ThreadDue trace t v.1)
  | inr m ↦
      rw m.result (inr (m.decision, answered trace t m v.1, refl), λ d x. absurd (ground arith))
]
hold_step-ThreadDue trace i prefer (release o) g t e k v = ground arith
hold_step-ThreadDue trace i prefer (returned o) g t e k v = ground arith

-- The reply that the thread is given is the decision of this action.
reply-ThreadDue :
    (trace : List Action) (d : Decision) (t : Thread) (p : PendingRequest)
    → ThreadDue (decide d ∷ trace) t
    → ThreadDue (decide d ∷ trace) (record t { pending = some (record p { reply = some d }) })
reply-ThreadDue trace d t p v = (v.0, λ d' e. made_here d' (cc))
  where
    made_here : (d' : Decision) → d ≡ d' → Made d' (decide d ∷ trace)
    made_here d' q = subst (λ x. Made x (decide d ∷ trace)) q here

step-ThreadDue :
    (trace : List Action) (a : Action) (s t : System)
    → step a s ≡ some t
    → All (ThreadDue (a ∷ trace)) s.threads
    → All (ThreadDue (a ∷ trace)) t.threads
unfolding step
step-ThreadDue trace (call_hold req body) s t e v =
    let more : t.threads ≡ s.threads ++ new_thread req body ∷ [] = ground arith in
    rw more (
      All-append (ThreadDue (call_hold req body ∷ trace)) s.threads (new_thread req body ∷ []) v
        ((tt, tt), tt))
step-ThreadDue trace (run i prefer) s t e v =
    let r = step-Ran i prefer s t e in
    rw r.result (
      All-set (ThreadDue (run i prefer ∷ trace)) s.threads i r.after v (
        hold_step-ThreadDue (run i prefer ∷ trace) i prefer r.thread.stage s.gate r.thread refl
          r.moved (All-get (ThreadDue (run i prefer ∷ trace)) s.threads i v r.at)))
step-ThreadDue trace (decide d) s t e v = elim (step-Replied d s t e) [
  | inl (hidden, same) ↦ rw same v
  | inr r ↦ rw r.result (
      All-set (ThreadDue (decide d ∷ trace)) s.threads r.index _ v (
        reply-ThreadDue trace d r.thread r.pending
          (All-get (ThreadDue (decide d ∷ trace)) s.threads r.index v r.at)))
]
step-ThreadDue trace a s t e v = let same : t.threads ≡ s.threads = ground arith in rw same v

Run-ThreadDue : {trace : List Action} {s : System} → Run trace s → All (ThreadDue trace) s.threads
Run-ThreadDue start = tt
Run-ThreadDue (next {trace} {s} {t} a r e) = step-ThreadDue trace a s t e (
    All-map (ThreadDue trace) (ThreadDue (a ∷ trace)) (ThreadDue-later a trace) s.threads
      (Run-ThreadDue r))

-- Whatever the schedule, a call of `Hold` that has returned gave back its own request and body to be
-- forwarded, or a decision that the user made in one of the actions.
pub Run-IsDue :
    {trace : List Action} {s : System} (i : ℕ) (t : Thread) (o : Outcome)
    → Run trace s
    → get_elem? s.threads i ≡ some t
    → t.stage ≡ returned o
    → IsDue trace (unmodified t) o
Run-IsDue {trace} {s} i t o r at e =
    rw e at ((All-get (ThreadDue trace) s.threads i (Run-ThreadDue r) at).0)
