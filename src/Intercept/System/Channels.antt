-- ===== src/Intercept/System/Channels.antt =====
-- The bypass channels: a channel is closed once at most, and one that is made is new.
use shiv.Prelude.{
  Bool-cases, Option-cases, All, ℕ, ◌+◌, ◌≤◌, ◌<◌, ◌≡◌, refl, sym, inl, inr, Bool, true, false,
  some, List, [], ◌∷◌, arith,
}
use shiv.Intercept.Hold.{
  new_intercept_gate, mem_chan, is_closed, hold_step, set_flag, set_bypass, set_scope_filter,
  forward_all, Gate, Thread, Stage, check_enabled,
}
use shiv.Intercept.System.{
  step, Run-induction, System, Action, call_hold, run, enable_bypass, release_all, decide, Run,
}
use shiv.Intercept.System.Inversion.{step-Ran, step-Replied}

abbrev pub AllBelow : ℕ → List ℕ → Type 0
AllBelow n = All (λ c. c < n)

pub record ChannelsValid (g : Gate) : Type 0 where
  pub made : g.bypass < g.next_chan
  pub flagged : g.bypass_closed ≡ is_closed g g.bypass
  pub closed_made : AllBelow g.next_chan g.closed

AllBelow-mono : (n : ℕ) (cs : List ℕ) → AllBelow n cs → AllBelow (n + 1) cs
AllBelow-mono n [] h = tt
AllBelow-mono n (c ∷ cs) h = (omega (arith, h.0), AllBelow-mono n cs h.1)

mem_chan_below : (c n : ℕ) (cs : List ℕ) → AllBelow n cs → n ≤ c → mem_chan c cs ≡ false
unfolding mem_chan
mem_chan_below c n [] h le = refl
mem_chan_below c n (d ∷ ds) h le = ground (arith, h.0, mem_chan_below c n ds h.1 le)

-- A channel that is made is open.
pub fresh_open : (g : Gate) → ChannelsValid g → (c : ℕ) → g.next_chan ≤ c → is_closed g c ≡ false
unfolding is_closed
fresh_open g v c le = mem_chan_below c g.next_chan g.closed v.closed_made le

close_shut : (g : Gate) → g.bypass_closed ≡ true → set_bypass false g ≡ g
unfolding set_bypass
close_shut g shut = ground arith

close_open :
    (g : Gate)
    → g.bypass_closed ≡ false
    → set_bypass false g ≡ record g { closed = g.bypass ∷ g.closed; bypass_closed = true }
unfolding set_bypass
close_open g still_open = ground arith

made_and_closed :
    (g : Gate)
    → ChannelsValid g
    → ChannelsValid (record g { closed = g.bypass ∷ g.closed; bypass_closed = true })
unfolding is_closed
made_and_closed g h = record {
  made = h.made;
  flagged = ground arith;
  closed_made = (h.made, h.closed_made);
}

replaced : (g : Gate) → ChannelsValid g → ChannelsValid (set_bypass true g)
unfolding set_bypass is_closed
replaced g h = record {
  made = omega arith;
  flagged = sym (mem_chan_below g.next_chan g.next_chan g.closed h.closed_made (omega arith));
  closed_made = AllBelow-mono g.next_chan g.closed h.closed_made;
}

set_bypass-ChannelsValid : (v : Bool) (g : Gate) → ChannelsValid g → ChannelsValid (set_bypass v g)
set_bypass-ChannelsValid true g h = replaced g h
set_bypass-ChannelsValid false g h = elim (Bool-cases g.bypass_closed) [
  | inl shut ↦ rw (close_shut g shut) h
  | inr still_open ↦ rw (close_open g still_open) (made_and_closed g h)
]

forward_all-ChannelsValid : (g : Gate) → ChannelsValid g → ChannelsValid (forward_all g)
unfolding forward_all set_bypass
forward_all-ChannelsValid g h =
    set_bypass-ChannelsValid true (set_bypass false g) (set_bypass-ChannelsValid false g h)

-- What a step that leaves the channels alone may change.
abbrev SameChannels : Gate → Gate → Type 0
SameChannels g h =
    (h.bypass ≡ g.bypass)
    × (h.bypass_closed ≡ g.bypass_closed)
    × (h.closed ≡ g.closed)
    × (h.next_chan ≡ g.next_chan)

SameChannels-ChannelsValid : (g h : Gate) → SameChannels g h → ChannelsValid g → ChannelsValid h
unfolding is_closed
SameChannels-ChannelsValid g h e v = record {
  made = omega arith;
  flagged = cc v.flagged;
  closed_made = rw (e.2, e.3) v.closed_made;
}

pub hold_step-SameChannels :
    (i : ℕ) (prefer : Bool) (st : Stage) (g : Gate) (t : Thread) {h : Gate} {u : Thread}
    → hold_step i prefer st g t ≡ some (h, u)
    → SameChannels g h
unfolding hold_step
hold_step-SameChannels i prefer check_enabled g t k = ground arith
hold_step-SameChannels i prefer _ g t k = ground arith

-- Every action leaves the channels alone, or is one of the two operations on them.
pub data ChannelEffect (g : Gate) (h : Gate) : Type 0 where
  kept : SameChannels g h → ChannelEffect g h
  set : (v : Bool) → h ≡ set_bypass v g → ChannelEffect g h
  swapped : h ≡ forward_all g → ChannelEffect g h

pub step-ChannelEffect :
    (a : Action) (s t : System) → step a s ≡ some t → ChannelEffect s.gate t.gate
unfolding step set_flag set_scope_filter
step-ChannelEffect (run i prefer) s t e =
    let r = step-Ran i prefer s t e in
    rw r.result (kept (hold_step-SameChannels i prefer r.thread.stage s.gate r.thread r.moved))
step-ChannelEffect (decide d) s t e = elim (step-Replied d s t e) [
  | inl (hidden, same) ↦ rw same (kept (refl, refl, refl, refl))
  | inr r ↦ rw r.result (kept (refl, refl, refl, refl))
]
step-ChannelEffect release_all s t e = swapped (ground arith)
step-ChannelEffect enable_bypass s t e = elim (Option-cases s.ui) [
  | inl idle ↦ absurd (ground arith)
  | inr (v, middle) ↦ set v (ground arith)
]
step-ChannelEffect (call_hold req body) s t e = kept (ground arith)
step-ChannelEffect _ s t e = kept (ground arith)

pub effect-ChannelsValid : (g h : Gate) → ChannelEffect g h → ChannelsValid g → ChannelsValid h
effect-ChannelsValid g h (kept e) v = SameChannels-ChannelsValid g h e v
effect-ChannelsValid g h (set b e) v = rw e (set_bypass-ChannelsValid b g v)
effect-ChannelsValid g h (swapped e) v = rw e (forward_all-ChannelsValid g v)

-- A channel that was closed stays closed, whatever happens next.
effect-is_closed :
    (g h : Gate) (c : ℕ) → ChannelEffect g h → is_closed g c ≡ true → is_closed h c ≡ true
unfolding is_closed set_bypass forward_all
effect-is_closed g h c (kept e) x = cc (e.2)
effect-is_closed g h c (set true e) x = ground arith
effect-is_closed g h c (set false e) x = ground arith
effect-is_closed g h c (swapped e) x = ground arith

-- A bypass channel that is closed stays closed, whatever happens next.
pub step-is_closed :
    (a : Action) (s t : System) (c : ℕ)
    → step a s ≡ some t
    → is_closed s.gate c ≡ true
    → is_closed t.gate c ≡ true
step-is_closed a s t c e = effect-is_closed s.gate t.gate c (step-ChannelEffect a s t e)

-- In every state that a schedule leads to, `bypassClosed` says whether the current bypass channel
-- is closed, so that no channel is closed twice, and the next channel to be made is not among
-- those in use or closed.
pub Run-ChannelsValid : {trace : List Action} {s : System} → Run trace s → ChannelsValid s.gate
unfolding new_intercept_gate is_closed
Run-ChannelsValid =
    Run-induction (λ s. ChannelsValid s.gate)
      (record { made = omega arith; flagged = refl; closed_made = tt })
      (λ a s t e. effect-ChannelsValid s.gate t.gate (step-ChannelEffect a s t e))
