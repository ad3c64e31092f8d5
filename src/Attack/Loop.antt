-- ===== src/Attack/Loop.antt =====
-- The goroutine of `startAttack` in internal/ui/intruder.go, and `applyFilter`. Each round sends one
-- request, and a request for each redirect that it follows. The settings stay as they are while the
-- attack runs; the delays and the durations are left out.
use shiv.Prelude.{
  if◌then◌else◌, length, ℕ, zero, suc, ◌+◌, Bool, true, false, not, ◌&&◌, ◌||◌, Option, none, some,
  List, [], ◌∷◌, ◌++◌,
}
use shiv.Prelude.Int.{ℤ, pos, negsuc}
use shiv.Text.{Bytes, codes, same, contains, to_lower}
use shiv.Http.RawRequest.{parse_host_from_raw, HostInfo}
use shiv.History.{same_int, select}
use shiv.Format.{itoa_int}
use shiv.Attack.{is_empty, rounds, inject, Escapes, IntruderResult, RawRequestOptions, Attack}
use shiv.Attack.Redirect.{status_of, redirect_request}

-- How the loop ends, with the count of requests that it shows.
pub data Ending : Type 0 where
  stopped : ℕ → Ending
  status_met : ℕ → Ending
  done : ℕ → Ending

pub record Outcome (S : Type 0) : Type 0 where
  pub results : List IntruderResult
  pub ending : Ending
  pub world : S

-- The raw answer of `SendRaw`, or the text of its error.
pub data SendResult : Type 0 where
  received : Bytes → SendResult
  send_error : Bytes → SendResult

nat_of : ℤ → ℕ
nat_of (pos n) = n
nat_of (negsuc n) = 0

-- The most redirects that are followed.
unfoldable pub redirects : Attack → ℕ
unfolding same nat_of
redirects a =
    if same a.config.follow_redirects (codes "never") then 0 else nat_of a.config.max_redirects

failed : Bytes → Bytes → Bytes → IntruderResult
failed payload raw_req error = record {
  payload = payload;
  status_code = pos 0;
  size = 0;
  error = some error;
  raw_resp = [];
  raw_req = raw_req;
}

unfoldable pub options_of : Attack → Bytes → HostInfo → RawRequestOptions
options_of a raw h = record {
  host = h.host;
  port = h.port;
  tls = h.use_tls;
  raw_req = raw;
  timeout_ms = a.config.timeout_ms;
}

-- `config.StopOnStatus != 0 && result.statusCode == config.StopOnStatus`
unfoldable pub should_stop : Attack → IntruderResult → Bool
unfolding same_int
should_stop a r =
    not (same_int a.config.stop_on_status (pos 0)) && same_int r.status_code a.config.stop_on_status

unfoldable pub more_results : {S : Type 0} → IntruderResult → Outcome S → Outcome S
more_results r o = record o { results = r ∷ o.results }

module _ {S : Type 0} (scan : Bytes → Option ℤ) (is_ip : Bytes → Bool) (in_scope : Bytes → Bool)
    (e : Escapes) (send : RawRequestOptions → S → SendResult × S) (a : Attack) where
  -- The loop over redirects, on the rounds that `MaxRedirects` leaves: the last answer.
  unfoldable pub follow : ℕ → Bytes → Bytes → S → Bytes × S
  unfolding redirect_request
  follow zero host raw s = (raw, s)
  follow (suc n) host raw s = elim (redirect_request scan in_scope a.config raw host) [
    | none ↦ (raw, s)
    | some options ↦
        let (answer, s') = send options s in
        elim answer [ send_error text ↦ (raw, s') | received raw' ↦ follow n host raw' s' ]
  ]

  answered : Bytes → Bytes → Bytes → IntruderResult
  unfolding status_of
  answered payload raw_req raw = record {
    payload = payload;
    status_code = status_of scan raw;
    size = length raw;
    error = none;
    raw_resp = raw;
    raw_req = raw_req;
  }

  -- The body of the inner loop.
  unfoldable pub attack_round : Bytes × Bytes → S → IntruderResult × S
  unfolding inject parse_host_from_raw follow redirects answered failed options_of is_empty
  attack_round (marker, payload) s =
      let raw = inject e a (marker, payload) in
      let h = parse_host_from_raw is_ip raw in
      if is_empty h.host
      then (failed payload raw (codes "no Host header found"), s)
      else let (answer, s') = send (options_of a raw h) s in
        elim answer [
          | send_error text ↦ (failed payload raw text, s')
          | received resp ↦
              let (last, s'') = follow (redirects a) h.host resp s' in
              (answered payload raw last, s'')
        ]

  -- The two loops, over the rounds that are left. `is_stopped` says whether the stop channel is
  -- closed when a round begins, by the number of rounds that were made.
  unfoldable pub attack_loop : (ℕ → Bool) → ℕ → List (Bytes × Bytes) → S → Outcome S
  unfolding more_results attack_round should_stop
  attack_loop is_stopped made [] s = record { results = []; ending = done made; world = s }
  attack_loop is_stopped made (r ∷ rs) s = elim (is_stopped made) [
    | true ↦ record { results = []; ending = stopped made; world = s }
    | false ↦
        let (result, s') = attack_round r s in
        elim (should_stop a result) [
          | true ↦ record { results = result ∷ []; ending = status_met (made + 1); world = s' }
          | false ↦ more_results result (attack_loop is_stopped (made + 1) rs s')
        ]
  ]

  unfoldable pub attack : (ℕ → Bool) → S → Outcome S
  unfolding attack_loop rounds
  attack is_stopped s = attack_loop is_stopped 0 (rounds a.markers a.payloads) s

text_or_empty : Option Bytes → Bytes
text_or_empty none = []
text_or_empty (some s) = s

-- The text that the filter of the results searches.
searchable : IntruderResult → Bytes
unfolding itoa_int text_or_empty
searchable r =
    r.payload ++ (codes " " ++ (itoa_int r.status_code ++ (codes " " ++ text_or_empty r.error)))

unfoldable pub apply_filter : Bytes → List IntruderResult → List IntruderResult
unfolding searchable contains to_lower is_empty
apply_filter query results =
    select (λ r. is_empty query || contains (to_lower (searchable r)) (to_lower query)) results

-- The control of a running attack: the stop channel, and whether it is closed. `none` of a result is
-- the panic of closing a closed channel.
pub data StopChan : Type 0 where
  no_chan open_chan closed_chan : StopChan

unfoldable pub stop_attack : StopChan → Option StopChan
stop_attack no_chan = some no_chan
stop_attack open_chan = some closed_chan
stop_attack closed_chan = none
