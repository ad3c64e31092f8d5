-- ===== src/Http/Compression/Branches.antt =====
-- Truncation of bodies.
use mathlib.Core.Path.{subst}
use shiv.Prelude.{
  leb, if◌then◌else◌, Bool-cases, length, take, drop, length-append, length-take, drop_all,
  drop-append_length, take-append_length, ℕ, ◌+◌, ◌≤◌, ◌≡◌, refl, inl, inr, [], ◌++◌, arith,
}
use shiv.Text.{Bytes}
use shiv.Http.Compression.{max_display_bytes, notice, truncate_body}

module _ (n : ℕ) (body tail : Bytes) (long : n ≤ length body) where
  cut_at : length (take n body) ≡ n
  cut_at = length-take n body long

  take_back : take n (take n body ++ tail) ≡ take n body
  take_back =
      subst (λ k. take k (take n body ++ tail) ≡ take n body) cut_at
        (take-append_length (take n body) tail)

  drop_back : drop n (take n body ++ tail) ≡ tail
  drop_back =
      subst (λ k. drop k (take n body ++ tail) ≡ tail) cut_at
        (drop-append_length (take n body) tail)

  cut_length : length (take n body ++ tail) ≡ n + length tail
  cut_length = omega (arith, cut_at, length-append (take n body) tail)

-- The first `MaxDisplayBytes` bytes stay as they are, behind them stands nothing if that was all of
-- the body and the notice otherwise, and no result is longer than the limit and the notice together.
pub truncate_body_bounds :
    (body : Bytes)
    → (take max_display_bytes (truncate_body body) ≡ take max_display_bytes body)
      × (drop max_display_bytes (truncate_body body)
          ≡ (if leb (length body) max_display_bytes then [] else notice))
      × (length (truncate_body body) ≤ max_display_bytes + length notice)
unfolding truncate_body
truncate_body_bounds body = elim (Bool-cases (leb (length body) max_display_bytes)) [
  | inl short ↦ simp short (refl, drop_all max_display_bytes body (ground arith), ground arith)
  | inr long ↦
      let over : max_display_bytes ≤ length body = ground arith in
      simp long (
        take_back max_display_bytes body notice over,
        drop_back max_display_bytes body notice over,
        omega (arith, cut_length max_display_bytes body notice over),
      )
]
