-- ===== src/Attack/Tests.antt =====
-- An attack with one marker and two payloads, on a server that answers every request with 200.
use shiv.Prelude.{
  length, ℕ, ◌+◌, ◌*◌, ◌≤◌, ◌≡◌, refl, Bool, true, false, Option, some, [], ◌∷◌, map, take, arith,
}
use shiv.Prelude.Int.{ℤ, pos}
use shiv.Text.{Bytes, codes, same}
use shiv.IntruderConfig.{default_intruder_config}
use shiv.Attack.{rounds, find_markers, Escapes, RawRequestOptions, Attack}
use shiv.Attack.Loop.{received, should_stop, attack, SendResult, Outcome}
use shiv.Attack.Rounds.{shown, planned, EndsAs, attack-EndsAs, attack-sent}

abbrev scan_200 : Bytes → Option ℤ
scan_200 s = some (pos 200)

abbrev never_ip : Bytes → Bool
never_ip s = false

abbrev any_host : Bytes → Bool
any_host s = true

abbrev plain : Escapes
plain = record { query = λ s. s; base64 = λ s. s; hex = λ s. s }

-- The world counts the requests.
abbrev answer_200 : RawRequestOptions → ℕ → SendResult × ℕ
answer_200 o n = (received (codes "HTTP/1.1 200 OK"), n + 1)

abbrev two_payloads : Attack
two_payloads = record {
  raw_req = codes "GET /$<1> HTTP/1.1\r\nHost: a.test\r\n\r\n";
  markers = codes "$<1>" ∷ [];
  payloads = codes "x" ∷ codes "y" ∷ [];
  config = record default_intruder_config { stop_on_status = pos 200 };
  encoding = codes "None";
}

markers_found : find_markers (codes "a$<1>b$<>c$<xy>") ≡ codes "$<1>" ∷ codes "$<xy>" ∷ []
unfolding find_markers
markers_found = refl

abbrev never_stopped : ℕ → Bool
never_stopped n = false

abbrev outcome : Outcome ℕ
outcome = attack scan_200 never_ip any_host plain answer_200 two_payloads never_stopped 0

attack-EndsAs_example :
    (map shown outcome.results
      ≡ map
          (planned plain two_payloads)
          (take (length outcome.results) (rounds two_payloads.markers two_payloads.payloads)))
    × EndsAs never_stopped
        (should_stop two_payloads)
        0
        (length (rounds two_payloads.markers two_payloads.payloads))
        outcome.ending
        outcome.results
attack-EndsAs_example =
    attack-EndsAs scan_200 never_ip any_host plain answer_200 two_payloads never_stopped 0

attack-sent_example : outcome.world ≤ 0 + 1 * 2 * 1
unfolding default_intruder_config same
attack-sent_example =
    attack-sent scan_200 never_ip any_host plain answer_200 two_payloads (λ n. n)
      (λ o n. omega arith) never_stopped 0 10 refl

-- The first answer has the status to stop on.
one_result : length outcome.results ≡ 1
unfolding attack default_intruder_config
one_result = refl
