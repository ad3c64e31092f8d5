-- ===== src/Intercept/Hold.antt =====
-- The gate, and the steps of one call of `Hold`.
use shiv.Prelude.{
  ltb, ◌==◌, if◌then◌else◌, length, ℕ, ◌+◌, ◌-◌, Bool, true, false, not, ◌||◌, Option, none, some,
  List, [], ◌∷◌, ◌++◌,
}
use shiv.Text.{Bytes, split_host_port}
use shiv.Http.Message.{Request}
use shiv.Events.Event.{RequestResult}
use shiv.Intercept.Pending.{new_pending_request, cancel, PendingRequest}

-- A channel is named by a number, in the order of the `make` calls; `next_chan` is the number of
-- the next one. `sem` is the number of tokens in the semaphore. The queue holds the number of the
-- thread that put its request there.
pub record Gate : Type 0 where
  pub enabled : Bool
  pub queue : List ℕ
  pub sem : ℕ
  pub bypass : ℕ
  pub bypass_closed : Bool
  pub closed : List ℕ
  pub next_chan : ℕ
  pub scope_check_fn : Option (Bytes → Bool)

abbrev pub queue_cap : ℕ
queue_cap = 1024

abbrev pub sem_cap : ℕ
sem_cap = 1

unfoldable pub new_intercept_gate : Gate
new_intercept_gate = record {
  enabled = false;
  queue = [];
  sem = 0;
  bypass = 0;
  bypass_closed = false;
  closed = [];
  next_chan = 1;
  scope_check_fn = none;
}

unfoldable pub mem_chan : ℕ → List ℕ → Bool
mem_chan c [] = false
mem_chan c (d ∷ ds) = d == c || mem_chan c ds

-- A receive from `bypass` is ready.
unfoldable pub is_closed : Gate → ℕ → Bool
unfolding mem_chan
is_closed g c = mem_chan c g.closed

-- What `Hold` returns: the request, its body, and whether to forward it.
pub record Outcome : Type 0 where
  pub request : Request
  pub body : Bytes
  pub forward : Bool

-- Where a call of `Hold` stands, with the channel that it has captured.
pub data Stage : Type 0 where
  check_enabled : Stage
  check_scope : Stage
  capture : Stage
  acquire : ℕ → Stage
  recheck_enabled : ℕ → Stage
  recheck_bypass : ℕ → Stage
  enqueue : ℕ → Stage
  await : ℕ → Stage
  release : Outcome → Stage
  returned : Outcome → Stage

-- A call of `Hold`: its arguments, its place, and the pending request that it made, if any.
pub record Thread : Type 0 where
  pub request : Request
  pub body : Bytes
  pub stage : Stage
  pub pending : Option PendingRequest

abbrev pub unmodified : Thread → Outcome
unmodified t = record { request = t.request; body = t.body; forward = true }

bare_host : Bytes → Bytes
bare_host h = elim (split_host_port h) [ none ↦ h | some (host, port) ↦ host ]

-- `fn != nil && !fn(host)`
unfoldable pub skips_scope : Option (Bytes → Bool) → Bytes → Bool
unfolding bare_host
skips_scope none host = false
skips_scope (some fn) host = not (fn (bare_host host))

-- The two sides of a `select` with `<-bypass`, when both can be ready: `prefer` is the choice of
-- the Go runtime. `none` means that the thread blocks.
unfoldable pub select {ℓ} : {A : Type ℓ} → Bool → Option A → Option A → Option A
select prefer none b = b
select prefer (some a) none = some a
select true (some a) (some b) = some a
select false (some a) (some b) = some b

abbrev pub Move : Type 0
Move = Option (Gate × Thread)

abbrev goto : Gate → Thread → Stage → Move
goto g t s = some (g, record t { stage = s })

-- `case <-bypass`
abbrev on_bypass : Gate → ℕ → Gate × Thread → Move
on_bypass g b m = if is_closed g b then some m else none

-- `g.sem <- struct{}{}` and `return`, by the deferred `<-g.sem`
send_sem : Gate → Thread → ℕ → Move
send_sem g t b =
    if ltb g.sem sem_cap
    then some (record g { sem = g.sem + 1 }, record t { stage = recheck_enabled b })
    else none

-- `g.queue <- pending`
send_queue : ℕ → Gate → Thread → ℕ → Move
send_queue me g t b =
    if ltb (length g.queue) queue_cap
    then some (record g { queue = g.queue ++ me ∷ [] }, record t { stage = await b })
    else none

unfoldable pub cancelled : Option PendingRequest → Option PendingRequest
unfolding cancel
cancelled none = none
cancelled (some p) = some (cancel p)

unfoldable pub give_up : Thread → Thread
unfolding cancelled
give_up t = record t { pending = cancelled t.pending; stage = release (unmodified t) }

-- `decision := <-pending.Reply`
receive_reply : Gate → Thread → Option PendingRequest → Move
receive_reply g t none = none
receive_reply g t (some p) = elim p.reply [
  | none ↦ none
  | some d ↦ some (
    g,
    record t {
      pending = some (record p { reply = none });
      stage = release (record { request = d.request; body = d.body; forward = d.forward });
    },
  )
]

-- One step of thread `me`; `none` where it blocks or has returned.
unfoldable pub hold_step : ℕ → Bool → Stage → Gate → Thread → Move
unfolding is_closed skips_scope select send_sem send_queue give_up receive_reply
hold_step me prefer check_enabled g t =
    if not g.enabled then goto g t (returned (unmodified t)) else goto g t check_scope
hold_step me prefer check_scope g t =
    if skips_scope g.scope_check_fn t.request.host
    then goto g t (returned (unmodified t))
    else goto g t capture
hold_step me prefer capture g t = goto g t (acquire g.bypass)
hold_step me prefer (acquire b) g t =
    select prefer (send_sem g t b) (on_bypass g b (g, record t { stage = returned (unmodified t) }))
hold_step me prefer (recheck_enabled b) g t =
    if not g.enabled then goto g t (release (unmodified t)) else goto g t (recheck_bypass b)
hold_step me prefer (recheck_bypass b) g t =
    if is_closed g b
    then goto g t (release (unmodified t))
    else some
        (g, record t { stage = enqueue b; pending = some (new_pending_request t.request t.body) })
hold_step me prefer (enqueue b) g t =
    select prefer (send_queue me g t b) (on_bypass g b (g, give_up t))
hold_step me prefer (await b) g t =
    select prefer (receive_reply g t t.pending) (on_bypass g b (g, give_up t))
hold_step me prefer (release o) g t =
    if ltb 0 g.sem
    then some (record g { sem = g.sem - 1 }, record t { stage = returned o })
    else none
hold_step me prefer (returned o) g t = none

-- `SetEnabled(v)`, first critical section
unfoldable pub set_flag : Bool → Gate → Gate
set_flag v g = record g { enabled = v }

-- `if !g.bypassClosed { close(g.bypass); g.bypassClosed = true }`
close_bypass : Gate → Gate
close_bypass g =
    if g.bypass_closed then g else record g { closed = g.bypass ∷ g.closed; bypass_closed = true }

-- `g.bypass = make(chan struct{}); g.bypassClosed = false`
replace_bypass : Gate → Gate
replace_bypass g = record g {
  bypass = g.next_chan;
  next_chan = g.next_chan + 1;
  bypass_closed = false;
}

-- `SetEnabled(v)`, second critical section
unfoldable pub set_bypass : Bool → Gate → Gate
unfolding close_bypass replace_bypass
set_bypass false g = close_bypass g
set_bypass true g = replace_bypass g

unfoldable pub set_scope_filter : Option (Bytes → Bool) → Gate → Gate
set_scope_filter fn g = record g { scope_check_fn = fn }

unfoldable pub forward_all : Gate → Gate
unfolding close_bypass replace_bypass
forward_all g = replace_bypass (close_bypass g)

-- `HandleRequest`, on what `Hold` returned
unfoldable pub handle_request : Outcome → RequestResult
handle_request o = record { dropped = not o.forward; request = o.request; body = o.body }
