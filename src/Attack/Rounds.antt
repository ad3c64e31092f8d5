-- ===== src/Attack/Rounds.antt =====
-- What an attack of internal/ui/intruder.go has done when it ends, and how many requests it sends.
use shiv.Prelude.{
  Bool-cases, if◌then◌else◌, length, length-append, take, All, ℕ, zero, suc, ◌+◌, ◌*◌, ◌≤◌, ◌<◌,
  ◌≡◌, refl, ap, ◌∙◌, inl, inr, ◌⊎◌, Option-cases, Bool, true, false, Option, List, [], ◌∷◌, map,
  arith,
}
use shiv.Prelude.Int.{ℤ, pos}
use shiv.Text.{Bytes, codes, same}
use shiv.Http.RawRequest.{parse_host_from_raw}
use shiv.Attack.{
  with_marker, rounds, inject, is_empty, Escapes, IntruderResult, RawRequestOptions, Attack,
}
use shiv.Attack.Redirect.{redirect_request}
use shiv.Attack.Loop.{
  stopped, status_met, done, received, send_error, follow, redirects, options_of, attack_round,
  should_stop, more_results, attack_loop, attack, Ending, Outcome, SendResult,
}

-- The payload and the request of a round, as they stand in its result.
abbrev pub shown : IntruderResult → Bytes × Bytes
shown r = (r.payload, r.raw_req)

abbrev pub planned : Escapes → Attack → Bytes × Bytes → Bytes × Bytes
planned e a r = (r.1, inject e a r)

-- All but the last result, which is the one that stops the attack.
abbrev pub Stops {ℓ} : {A : Type ℓ} → (A → Bool) → List A → Type 0
Stops p [] = ⊥
Stops p (r ∷ []) = p r ≡ true
Stops p (r ∷ s ∷ rs) = (p r ≡ false) × Stops p (s ∷ rs)

-- What an ending says of the rounds that were left and the results: the count that is shown is
-- that of the requests made, and the attack stops at the first result with the status, or where the
-- stop channel is closed when a round begins, or behind the last round.
abbrev pub EndsAs :
    (ℕ → Bool) → (IntruderResult → Bool) → ℕ → ℕ → Ending → List IntruderResult → Type 0
EndsAs is_stopped stop made total (stopped n) results =
    (n ≡ made + length results)
    × (length results < total)
    × (is_stopped n ≡ true)
    × All (λ r. stop r ≡ false) results
EndsAs is_stopped stop made total (status_met n) results =
    (n ≡ made + length results) × (length results ≤ total) × Stops stop results
EndsAs is_stopped stop made total (done n) results =
    (n ≡ made + total) × (length results ≡ total) × All (λ r. stop r ≡ false) results

EndsAs-more :
    (is_stopped : ℕ → Bool) (stop : IntruderResult → Bool) (made total : ℕ) (end : Ending)
    (r : IntruderResult) (results : List IntruderResult)
    → stop r ≡ false
    → EndsAs is_stopped stop (made + 1) total end results
    → EndsAs is_stopped stop made (suc total) end (r ∷ results)
EndsAs-more is_stopped stop made total (stopped n) r results e h =
    (omega arith, omega arith, h.2, (e, h.3))
EndsAs-more is_stopped stop made total (status_met n) r [] e h = absurd h.2
EndsAs-more is_stopped stop made total (status_met n) r (x ∷ xs) e h =
    (omega arith, omega arith, (e, h.2))
EndsAs-more is_stopped stop made total (done n) r results e h = (omega arith, omega arith, (e, h.2))

SendResult-cases :
    (r : SendResult) → ((t : Bytes) × (r ≡ send_error t)) ⊎ ((t : Bytes) × (r ≡ received t))
SendResult-cases (send_error t) = inl (t, refl)
SendResult-cases (received t) = inr (t, refl)

length-with_marker : (m : Bytes) (ps : List Bytes) → length (with_marker m ps) ≡ length ps
unfolding with_marker
length-with_marker m [] = refl
length-with_marker m (p ∷ ps) = omega (arith, length-with_marker m ps)

length-rounds : (ms ps : List Bytes) → length (rounds ms ps) ≡ length ms * length ps
unfolding rounds
length-rounds [] ps = grind arith
length-rounds (m ∷ ms) ps =
    length-append (with_marker m ps) (rounds ms ps)
    ∙ grind (arith, length-with_marker m ps, length-rounds ms ps)

redirects_lem :
    (a : Attack) (n : ℕ)
    → a.config.max_redirects ≡ pos n
    → 1 + redirects a ≡ (if same a.config.follow_redirects (codes "never") then 1 else n + 1)
unfolding redirects
redirects_lem a n most = ground arith

module _ {S : Type 0} (scan : Bytes → Option ℤ) (is_ip : Bytes → Bool) (in_scope : Bytes → Bool)
    (e : Escapes) (send : RawRequestOptions → S → SendResult × S) (a : Attack) where
  round : Bytes × Bytes → S → IntruderResult × S
  round = attack_round scan is_ip in_scope e send a

  loop : (ℕ → Bool) → ℕ → List (Bytes × Bytes) → S → Outcome S
  loop = attack_loop scan is_ip in_scope e send a

  round-shown : (r : Bytes × Bytes) (s : S) → shown (round r s).0 ≡ planned e a r
  unfolding round attack_round
  round-shown (marker, payload) s = ground arith

  loop_stopped :
      (is_stopped : ℕ → Bool) (made : ℕ) (r : Bytes × Bytes) (rs : List (Bytes × Bytes)) (s : S)
      → is_stopped made ≡ true
      → loop is_stopped made (r ∷ rs) s ≡ record { results = []; ending = stopped made; world = s }
  unfolding loop attack_loop
  loop_stopped is_stopped made r rs s h = rw (h, attack_loop) refl

  loop_met :
      (is_stopped : ℕ → Bool) (made : ℕ) (r : Bytes × Bytes) (rs : List (Bytes × Bytes)) (s : S)
      → is_stopped made ≡ false
      → should_stop a (round r s).0 ≡ true
      → loop is_stopped made (r ∷ rs) s ≡ record {
        results = (round r s).0 ∷ [];
        ending = status_met (made + 1);
        world = (round r s).1;
      }
  unfolding loop attack_loop round
  loop_met is_stopped made r rs s h met = rw (h, attack_loop) (rw met refl)

  loop_more :
      (is_stopped : ℕ → Bool) (made : ℕ) (r : Bytes × Bytes) (rs : List (Bytes × Bytes)) (s : S)
      → is_stopped made ≡ false
      → should_stop a (round r s).0 ≡ false
      → loop is_stopped made (r ∷ rs) s
        ≡ more_results (round r s).0 (loop is_stopped (made + 1) rs (round r s).1)
  unfolding loop attack_loop round
  loop_more is_stopped made r rs s h met = rw (h, attack_loop) (rw met refl)

  abbrev IsRun : (ℕ → Bool) → ℕ → List (Bytes × Bytes) → Outcome S → Type 0
  IsRun is_stopped made rs o =
      (map shown o.results ≡ map (planned e a) (take (length o.results) rs))
      × EndsAs is_stopped (should_stop a) made (length rs) o.ending o.results

  loop-IsRun :
      (is_stopped : ℕ → Bool) (made : ℕ) (rs : List (Bytes × Bytes)) (s : S)
      → IsRun is_stopped made rs (loop is_stopped made rs s)
  unfolding more_results
  loop-IsRun is_stopped made [] s = unfold loop attack_loop in (refl, (omega arith, refl, tt))
  loop-IsRun is_stopped made (r ∷ rs) s =
      let ih = loop-IsRun is_stopped (made + 1) rs (round r s).1 in
      elim (Bool-cases (is_stopped made)) [
        | inl closed ↦
            rw (loop_stopped is_stopped made r rs s closed)
              (refl, (omega arith, omega arith, closed, tt))
        | inr open_yet ↦ elim (Bool-cases (should_stop a (round r s).0)) [
          | inl met ↦
              rw (loop_met is_stopped made r rs s open_yet met)
                (ap (λ x. x ∷ []) (round-shown r s), (omega arith, omega arith, met))
          | inr other ↦
              let o = loop is_stopped (made + 1) rs (round r s).1 in
              rw (loop_more is_stopped made r rs s open_yet other) (
                ap (λ x. x ∷ map shown o.results) (round-shown r s) ∙ ap (◌∷◌ (planned e a r)) ih.0,
                EndsAs-more is_stopped (should_stop a) made (length rs) o.ending (round r s).0
                    o.results other ih.1,
              )
        ]
      ]

  -- An attack makes the rounds of its plan in order, each marker with each payload, up to where it
  -- ends: the results are those of the first rounds, with their payloads and requests, whatever the
  -- answers are. It ends behind the last round, or before one at whose beginning the stop channel is
  -- closed, or right behind the first result with the status to stop on; the count that is shown is
  -- that of the results.
  pub attack-EndsAs :
      (is_stopped : ℕ → Bool) (s : S)
      → (let o = attack scan is_ip in_scope e send a is_stopped s in
          (map shown o.results
            ≡ map (planned e a) (take (length o.results) (rounds a.markers a.payloads)))
          × EndsAs is_stopped
              (should_stop a)
              0
              (length (rounds a.markers a.payloads))
              o.ending
              o.results)
  unfolding attack loop
  attack-EndsAs is_stopped s = loop-IsRun is_stopped 0 (rounds a.markers a.payloads) s

  -- Where a count of the requests goes up by at most one with each that is sent.
  module _ (sent : S → ℕ)
      (one_each : (o : RawRequestOptions) (s : S) → sent (send o s).1 ≤ sent s + 1) where
    follow-sent :
        (n : ℕ) (host raw : Bytes) (s : S)
        → sent (follow scan is_ip in_scope e send a n host raw s).1 ≤ sent s + n
    unfolding follow
    follow-sent zero host raw s = omega arith
    follow-sent (suc n) host raw s =
        elim (Option-cases (redirect_request scan in_scope a.config raw host)) [
          | inl none_there ↦ rw (none_there, follow) (omega arith)
          | inr (o, at) ↦ elim (SendResult-cases (send o s).0) [
            | inl (t, failed) ↦ rw (at, follow) (rw failed (omega (arith, one_each o s)))
            | inr (t, came) ↦
                rw (at, follow)
                  (rw came (omega (arith, one_each o s, follow-sent n host t (send o s).1)))
          ]
        ]

    round-sent : (r : Bytes × Bytes) (s : S) → sent (round r s).1 ≤ sent s + (1 + redirects a)
    unfolding round attack_round
    round-sent (marker, payload) s =
        let raw = inject e a (marker, payload) in
        let h = parse_host_from_raw is_ip raw in
        let o = options_of a raw h in
        elim (Bool-cases (is_empty h.host)) [
          | inl no_host ↦ rw (no_host, attack_round) (omega arith)
          | inr host_there ↦ elim (SendResult-cases (send o s).0) [
            | inl (t, failed) ↦
                rw (host_there, attack_round) (rw failed (omega (arith, one_each o s)))
            | inr (t, came) ↦
                rw (host_there, attack_round)
                  (rw came
                    (omega (arith, one_each o s, follow-sent (redirects a) h.host t (send o s).1)))
          ]
        ]

    loop-sent :
        (is_stopped : ℕ → Bool) (made : ℕ) (rs : List (Bytes × Bytes)) (s : S)
        → sent (loop is_stopped made rs s).world ≤ sent s + length rs * (1 + redirects a)
    unfolding more_results
    loop-sent is_stopped made [] s = unfold loop attack_loop in omega arith
    loop-sent is_stopped made (r ∷ rs) s =
        let ih = loop-sent is_stopped (made + 1) rs (round r s).1 in
        let one = round-sent r s in
        elim (Bool-cases (is_stopped made)) [
          | inl closed ↦ rw (loop_stopped is_stopped made r rs s closed) (grind arith)
          | inr open_yet ↦ elim (Bool-cases (should_stop a (round r s).0)) [
            | inl met ↦ rw (loop_met is_stopped made r rs s open_yet met) (grind arith)
            | inr other ↦ rw (loop_more is_stopped made r rs s open_yet other) (grind arith)
          ]
        ]

    -- Where the most redirects are `n`, an attack sends at most `n + 1` requests for each marker and
    -- each payload, and at most one where the setting is `never`: whatever the answers are, and also
    -- if they redirect in a circle.
    pub attack-sent :
        (is_stopped : ℕ → Bool) (s : S) (n : ℕ)
        → a.config.max_redirects ≡ pos n
        → sent (attack scan is_ip in_scope e send a is_stopped s).world
          ≤ sent s
            + length a.markers
              * length a.payloads
              * (if same a.config.follow_redirects (codes "never") then 1 else n + 1)
    unfolding attack loop
    attack-sent is_stopped s n most =
        let bound = loop-sent is_stopped 0 (rounds a.markers a.payloads) s in
        rw (← redirects_lem a n most) (rw (← length-rounds a.markers a.payloads) bound)
