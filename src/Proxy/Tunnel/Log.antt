-- ===== src/Proxy/Tunnel/Log.antt =====
-- What the rounds of a tunnel come to: the requests that go to the server, and the answers.
use shiv.Prelude.{length, count_p, All, ℕ, ◌+◌, ◌≤◌, ◌≡◌, ◌⊎◌, List, ◌++◌}
use shiv.Text.{Bytes}
use shiv.Http.Message.{Request}
use shiv.Events.Bus.{Bus}
use shiv.Proxy.Tunnel.{Round}
use shiv.Proxy.Tunnel.Traffic.{IsTunnelled, is_answered, is_last, Forbids}

-- What is said of the rounds of a loop over `n` requests, where `before` was sent.
abbrev pub Tallies :
    {W : Type 0}
    → (W → List (Request × Bytes))
    → Bytes
    → List (Request × Bytes)
    → ℕ
    → List Round × W
    → Type 0
Tallies sent host before n o =
    (xs : List (Request × Bytes)) × (sent o.1 ≡ before ++ xs)
    × All (λ x. IsTunnelled host x.0) xs
    × (count_p is_answered o.0 ≤ length xs)
    × (length xs ≤ count_p is_answered o.0 + count_p is_last o.0)
    × All Forbids o.0
    × (((length o.0 ≡ n) × (count_p is_last o.0 ≡ 0))
        ⊎ ((length o.0 ≤ n) × (count_p is_last o.0 ≡ 1)))
