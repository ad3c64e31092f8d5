-- ===== src/Intercept/System/Stranded.antt =====
-- A call of `Hold` whose bypass channel `SetEnabled(true)` has replaced while it was open: nothing
-- closes that channel any more (`SetEnabled` and `ForwardAll` of internal/intercept/intercept.go).
use shiv.Prelude.{
  get_elem?, get_elem?-set_ne, ◌==◌, Bool-cases, ℕ, zero, suc, ◌<◌, ◌≡◌, ◌≢◌, ap, ◌∙◌, inl, inr,
  Bool, true, false, none, some, List, [], ◌∷◌, ◌++◌, arith,
}
use shiv.Intercept.Pending.{PendingRequest}
use shiv.Intercept.Hold.{
  mem_chan, is_closed, hold_step, set_bypass, forward_all, Gate, Thread, await,
}
use shiv.Intercept.System.{
  step, System, Action, call_hold, run, enable_bypass, decide, new_thread, next, Run,
}
use shiv.Intercept.System.Inversion.{step-Ran, step-Replied}
use shiv.Intercept.System.Channels.{
  ChannelsValid, ChannelEffect, kept, set, swapped, step-ChannelEffect, effect-ChannelsValid,
  Run-ChannelsValid,
}

-- The action is not the user's answer to call `i`.
abbrev pub AnswersNot : ℕ → Action → System → Type 0
AnswersNot i (decide d) s = s.shown ≢ some i
AnswersNot i _ s = Unit

-- The states that any further actions lead to from `s`, none of which is the user's answer to
-- call `i`.
pub data Unanswered (i : ℕ) (s : System) : System → Type 0 where
  now : Unanswered i s s
  later :
      {t u : System} (a : Action)
      → Unanswered i s t
      → AnswersNot i a t
      → step a t ≡ some u
      → Unanswered i s u

-- The channel is open, and is not the one in use.
record IsOrphan (b : ℕ) (g : Gate) : Type 0 where
  valid : ChannelsValid g
  still_open : is_closed g b ≡ false
  replaced : (g.bypass == b) ≡ false
  made : b < g.next_chan

effect-IsOrphan : (b : ℕ) (g h : Gate) → ChannelEffect g h → IsOrphan b g → IsOrphan b h
unfolding is_closed mem_chan set_bypass forward_all
effect-IsOrphan b g h (kept e) o = record {
  valid = effect-ChannelsValid g h (kept e) o.valid;
  still_open = cc (e.2, o.still_open);
  replaced = cc (e.0, o.replaced);
  made = ground (arith, o.made);
}
effect-IsOrphan b g h (set true e) o =
    let v = effect-ChannelsValid g h (set true e) o.valid in
    record {
      valid = v;
      still_open = ground (arith, o.still_open);
      replaced = ground (arith, o.made);
      made = ground (arith, o.made);
    }
effect-IsOrphan b g h (set false e) o =
    let v = effect-ChannelsValid g h (set false e) o.valid in
    record {
      valid = v;
      still_open = ground (arith, o.still_open, o.replaced);
      replaced = ground (arith, o.replaced);
      made = ground (arith, o.made);
    }
effect-IsOrphan b g h (swapped e) o =
    let v = effect-ChannelsValid g h (swapped e) o.valid in
    record {
      valid = v;
      still_open = ground (arith, o.still_open, o.replaced);
      replaced = ground (arith, o.made);
      made = ground (arith, o.made);
    }

get_elem?-append {ℓ} :
    {A : Type ℓ} (xs ys : List A) (i : ℕ) {x : A}
    → get_elem? xs i ≡ some x
    → get_elem? (xs ++ ys) i ≡ some x
get_elem?-append [] ys i at = absurd (ground arith)
get_elem?-append (y ∷ xs) ys zero at = at
get_elem?-append (y ∷ xs) ys (suc i) at = get_elem?-append xs ys i at

module _ (i b : ℕ) (w : Thread) (p : PendingRequest) where
  -- The call waits, and there is no reply.
  record Waits (s : System) : Type 0 where
    at : get_elem? s.threads i ≡ some w
    waiting : w.stage ≡ await b
    asked : w.pending ≡ some p
    empty : p.reply ≡ none

  Waits-blocked :
      (prefer : Bool) (s : System)
      → IsOrphan b s.gate
      → Waits s
      → hold_step i prefer w.stage s.gate w ≡ none
  unfolding hold_step is_closed
  Waits-blocked prefer s o k = rw k.waiting (ground (arith, k.asked, k.empty, o.still_open))

  blocked :
      (prefer : Bool) (s : System) → IsOrphan b s.gate → Waits s → step (run i prefer) s ≡ none
  unfolding step
  blocked prefer s o k = ground (arith, k.at, Waits-blocked prefer s o k)

  step-Waits :
      (a : Action) (s t : System)
      → step a s ≡ some t
      → AnswersNot i a s
      → IsOrphan b s.gate
      → Waits s
      → get_elem? t.threads i ≡ some w
  unfolding step
  step-Waits (run j prefer) s t e n o k = elim (Bool-cases (j == i)) [
    | inl this ↦ let at_i : j ≡ i = ground arith in absurd (cc (at_i, e, blocked prefer s o k))
    | inr other ↦
        let r = step-Ran j prefer s t e in
        rw r.result (get_elem?-set_ne s.threads j i r.after (ground arith) ∙ k.at)
  ]
  step-Waits (decide d) s t e n o k = elim (step-Replied d s t e) [
    | inl (hidden, same) ↦ rw same k.at
    | inr r ↦
        let ne : r.index ≢ i = λ at_i. n (r.shows ∙ ap some at_i) in
        rw r.result (get_elem?-set_ne s.threads r.index i _ ne ∙ k.at)
  ]
  step-Waits (call_hold req body) s t e n o k =
      ground (arith, get_elem?-append s.threads (new_thread req body ∷ []) i k.at)
  step-Waits _ s t e n o k = ground (arith, k.at)

  Unanswered-blocked :
      {s t : System} → IsOrphan b s.gate → Waits s → Unanswered i s t → IsOrphan b t.gate × Waits t
  Unanswered-blocked o k now = (o, k)
  Unanswered-blocked o k (later {t} {u} a before n e) =
      let (o', k') = Unanswered-blocked o k before in
      (
        effect-IsOrphan b t.gate u.gate (step-ChannelEffect a t u e) o',
        record {
          at = step-Waits a t u e n o' k';
          waiting = k.waiting;
          asked = k.asked;
          empty = k.empty;
        },
      )

-- A call of `Hold` waits for the user on the bypass channel in use, which is open, with no reply, when
-- `SetEnabled(true)` comes to its second critical section. From there on the call is blocked in
-- every state that any actions lead to, among them any `SetEnabled` and `ForwardAll`, as long as none of
-- them is the user's answer to this call.
pub enable_twice_strands :
    {trace : List Action} {s s' t : System} (i : ℕ) (prefer : Bool) (w : Thread)
    (p : PendingRequest)
    → Run trace s
    → s.ui ≡ some true
    → get_elem? s.threads i ≡ some w
    → w.stage ≡ await s.gate.bypass
    → s.gate.bypass_closed ≡ false
    → w.pending ≡ some p
    → p.reply ≡ none
    → step enable_bypass s ≡ some s'
    → Unanswered i s' t
    → step (run i prefer) t ≡ none
unfolding step set_bypass is_closed
enable_twice_strands {s = s} {s'} {t} i prefer w p r on at waiting opened asked empty e u =
    let v = Run-ChannelsValid r in
    let v' = Run-ChannelsValid (next enable_bypass r e) in
    let o : IsOrphan s.gate.bypass s'.gate = record {
      valid = v';
      still_open = ground (arith, v.flagged);
      replaced = ground (arith, v.made);
      made = ground (arith, v.made);
    } in
    let k : Waits i s.gate.bypass w p s' = record {
      at = ground arith;
      waiting = waiting;
      asked = asked;
      empty = empty;
    } in
    let (o', k') = Unanswered-blocked i s.gate.bypass w p o k u in
    blocked i s.gate.bypass w p prefer t o' k'
