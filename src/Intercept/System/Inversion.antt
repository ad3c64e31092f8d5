-- ===== src/Intercept/System/Inversion.antt =====
-- What an action that happened must have met: the thread that ran, and the reply that was sent.
use shiv.Prelude.{Option-cases, get_elem?, set, ℕ, ◌≡◌, ◌⊎◌, inl, inr, Bool, none, some, arith}
use shiv.Intercept.Pending.{Decision, PendingRequest}
use shiv.Intercept.Hold.{hold_step, Gate, Thread}
use shiv.Intercept.System.{step, System, run, decide}

pub record Ran (i : ℕ) (prefer : Bool) (s t : System) : Type 0 where
  pub thread : Thread
  pub gate : Gate
  pub after : Thread
  pub at : get_elem? s.threads i ≡ some thread
  pub moved : hold_step i prefer thread.stage s.gate thread ≡ some (gate, after)
  pub result : t ≡ record s { gate = gate; threads = set s.threads i after }

pub step-Ran :
    (i : ℕ) (prefer : Bool) (s t : System) → step (run i prefer) s ≡ some t → Ran i prefer s t
unfolding step
step-Ran i prefer s t e = elim (Option-cases (get_elem? s.threads i)) [
  | inl absent ↦ absurd (ground arith)
  | inr (th, at) ↦ elim (Option-cases (hold_step i prefer th.stage s.gate th)) [
    | inl blocked ↦ absurd (ground arith)
    | inr ((h, u), moved) ↦ record {
      thread = th;
      gate = h;
      after = u;
      at = at;
      moved = moved;
      result = ground arith;
    }
  ]
]

pub record Replied (d : Decision) (s t : System) : Type 0 where
  pub index : ℕ
  pub thread : Thread
  pub pending : PendingRequest
  pub shows : s.shown ≡ some index
  pub at : get_elem? s.threads index ≡ some thread
  pub made : thread.pending ≡ some pending
  pub empty : pending.reply ≡ none
  pub result : t ≡ record s {
    threads =
        set s.threads index (record thread { pending = some (record pending { reply = some d }) });
    shown = none;
  }

pub step-Replied :
    (d : Decision) (s t : System)
    → step (decide d) s ≡ some t
    → ((s.shown ≡ none) × (t ≡ s)) ⊎ Replied d s t
unfolding step
step-Replied d s t e = elim (Option-cases s.shown) [
  | inl hidden ↦ inl (hidden, ground arith)
  | inr (i, shows) ↦ elim (Option-cases (get_elem? s.threads i)) [
    | inl absent ↦ absurd (ground arith)
    | inr (th, at) ↦ elim (Option-cases th.pending) [
      | inl unmade ↦ absurd (ground arith)
      | inr (p, made) ↦ elim (Option-cases p.reply) [
        | inr (d', full) ↦ absurd (ground arith)
        | inl empty ↦ inr (record {
          index = i;
          thread = th;
          pending = p;
          shows = shows;
          at = at;
          made = made;
          empty = empty;
          result = ground arith;
        })
      ]
    ]
  ]
]
