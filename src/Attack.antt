-- ===== src/Attack.antt =====
-- internal/ui/intruder.go: the attack of the intruder. The requests that it will send, the loop
-- over them, and the redirects that are followed. `S` is all that answers depend on; `send` is
-- `SendRaw`. `scan` is the number that `fmt.Sscanf` reads with
-- `%d` from a text, `none` where there is none. The escapes of `url`, `base64` and `hex` are parameters.
pub mod Redirect
pub mod Loop
pub mod Rounds
mod Tests
use mathlib.Core.Option
use shiv.Prelude.{
  ◌==◌, if◌then◌else◌, length, ℕ, zero, suc, ◌-◌, Bool, true, false, not, ◌&&◌, ◌||◌, Option, none,
  some, List, [], ◌∷◌, ◌++◌, map,
}
use shiv.Prelude.Int.{ℤ}
use shiv.Text.{Bytes, codes, same, split, replace_all, trim_space}
use shiv.History.{select}
use shiv.IntruderConfig.{IntruderConfig}

pub record Escapes : Type 0 where
  pub query : Bytes → Bytes
  pub base64 : Bytes → Bytes
  pub hex : Bytes → Bytes

unfoldable pub apply_payload_encoding : Escapes → Bytes → Bytes → Bytes
unfolding same
apply_payload_encoding e payload encoding =
    if same encoding (codes "URL encode")
    then e.query payload
    else if same encoding (codes "Double URL encode")
    then e.query (e.query payload)
    else if same encoding (codes "Base64")
    then e.base64 payload
    else if same encoding (codes "Hex")
    then e.hex payload
    else payload

-- The text up to the first `>`, with it.
up_to_close : Bytes → Option Bytes
up_to_close [] = none
up_to_close (c ∷ s) =
    let rest = Option.map (◌∷◌ c) (up_to_close s) in if c == b'>' then some (c ∷ []) else rest

after_dollar : Bytes → Option Bytes
unfolding up_to_close
after_dollar (c ∷ d ∷ s) =
    if c == b'<' && not (d == b'>') then Option.map (◌∷◌ c) (up_to_close (d ∷ s)) else none
after_dollar _ = none

-- The match of `\$<[^>]+>` that starts here.
marker_at : Bytes → Option Bytes
unfolding after_dollar
marker_at [] = none
marker_at (c ∷ s) = if c == b'$' then Option.map (◌∷◌ c) (after_dollar s) else none

-- `k` bytes of a match are still to be passed.
markers_from : ℕ → Bytes → List Bytes
unfolding marker_at
markers_from k [] = []
markers_from (suc k) (c ∷ s) = markers_from k s
markers_from zero (c ∷ s) = elim (marker_at (c ∷ s)) [
  | none ↦ markers_from zero s
  | some m ↦ m ∷ markers_from (length m - 1) s
]

-- intruderMarkerRegex.FindAllString(raw, -1)
unfoldable pub find_markers : Bytes → List Bytes
unfolding markers_from
find_markers raw = markers_from zero raw

trim_all : List Bytes → List Bytes
unfolding trim_space
trim_all [] = []
trim_all (p ∷ ps) = trim_space p ∷ trim_all ps

unfoldable pub is_empty : Bytes → Bool
is_empty [] = true
is_empty (c ∷ s) = false

unfoldable pub clean_payloads : Bytes → List Bytes
unfolding trim_all is_empty split
clean_payloads text =
    select (λ p. not (is_empty p)) (trim_all (split (trim_space text) (codes "\n")))

pub record IntruderResult : Type 0 where
  pub payload : Bytes
  pub status_code : ℤ
  pub size : ℕ
  pub error : Option Bytes
  pub raw_resp : Bytes
  pub raw_req : Bytes

pub record RawRequestOptions : Type 0 where
  pub host : Bytes
  pub port : ℤ
  pub tls : Bool
  pub raw_req : Bytes
  pub timeout_ms : ℤ

-- What the attack is made of once `startAttack` has checked its inputs.
pub record Attack : Type 0 where
  pub raw_req : Bytes
  pub markers : List Bytes
  pub payloads : List Bytes
  pub config : IntruderConfig
  pub encoding : Bytes

is_none {ℓ} : {A : Type ℓ} → List A → Bool
is_none [] = true
is_none (x ∷ xs) = false

-- The checks of `startAttack`; `none` is one of its error dialogs.
unfoldable pub prepare_attack : Bytes → Bytes → IntruderConfig → Bytes → Option Attack
unfolding find_markers clean_payloads is_none is_empty
prepare_attack raw payloads_text config encoding =
    if is_empty raw || is_none (find_markers raw)
    then none
    else if is_empty (trim_space payloads_text) || is_none (clean_payloads payloads_text)
    then none
    else some (record {
      raw_req = raw;
      markers = find_markers raw;
      payloads = clean_payloads payloads_text;
      config = record config { raw_request = raw; payloads = payloads_text };
      encoding = encoding;
    })

-- The rounds of the two loops, in their order: each marker with each payload.
with_marker : Bytes → List Bytes → List (Bytes × Bytes)
with_marker m [] = []
with_marker m (p ∷ ps) = (m, p) ∷ with_marker m ps

unfoldable pub rounds : List Bytes → List Bytes → List (Bytes × Bytes)
unfolding with_marker
rounds [] ps = []
rounds (m ∷ ms) ps = with_marker m ps ++ rounds ms ps

-- The request of a round.
unfoldable pub inject : Escapes → Attack → Bytes × Bytes → Bytes
unfolding apply_payload_encoding replace_all
inject e a (marker, payload) =
    replace_all a.raw_req marker (apply_payload_encoding e payload a.encoding)
