-- ===== src/Http/RawRequest/Lines.antt =====
-- The header lines that `rewriteHeaders` sends.
pub mod Sent
use shiv.Prelude.{
  if◌then◌else◌, Bool-cases, Option-cases, length, drop, All, All-append, count_p, count_p-append,
  ℕ, ◌≡◌, refl, ◌∙◌, ◌⊎◌, inl, inr, Bool, true, false, not, ◌||◌, List, [], ◌∷◌, ◌++◌, arith,
}
use shiv.Text.{Bytes, codes, same, join, trim_space, split_host_port}
use shiv.Text.Number.{itoa}
use shiv.Http.RawRequest.{
  kind_of, connection_close, rewrite_host_line, rewrite_line, rewrite_lines, connection_seen,
  cookie_pairs, is_empty, cookie_header, length_header, header_lines, LineKind, cookie_line,
  accept_encoding_line, content_length_line, transfer_encoding_line, connection_line, host_line,
  other_line,
}

-- What a line of a kind may be in a request with this jar and body.
abbrev MaySend : List (Bytes × Bytes) → Bytes → LineKind → Bytes → Type 0
MaySend jar body cookie_line line = (jar ≡ []) ⊎ (cookie_header jar ≡ line ∷ [])
MaySend jar body accept_encoding_line line = ⊥
MaySend jar body content_length_line line = length_header body ≡ line ∷ []
MaySend jar body transfer_encoding_line line = ⊥
MaySend jar body connection_line line = line ≡ connection_close
MaySend jar body host_line line = Unit
MaySend jar body other_line line = Unit

abbrev MaySendLine : List (Bytes × Bytes) → Bytes → Bytes → Type 0
MaySendLine jar body line = MaySend jar body (kind_of line) line

kind_of-connection_close : kind_of connection_close ≡ connection_line
unfolding kind_of
kind_of-connection_close = refl

kind_of_content_length : (n : Bytes) → kind_of (codes "Content-Length: " ++ n) ≡ content_length_line
unfolding kind_of
kind_of_content_length n = refl

kind_of_cookie : (n : Bytes) → kind_of (codes "Cookie: " ++ n) ≡ cookie_line
unfolding kind_of
kind_of_cookie n = refl

kind_of_host : (n : Bytes) → kind_of (codes "Host: " ++ n) ≡ host_line
unfolding kind_of
kind_of_host n = refl

rewrite_host_line-cases :
    (line : Bytes)
    → (rewrite_host_line line ≡ line)
      ⊎ ((h : Bytes) × (rewrite_host_line line ≡ codes "Host: " ++ h))
unfolding rewrite_host_line
rewrite_host_line-cases line = elim (Option-cases (split_host_port (trim_space (drop 5 line)))) [
  | inl bare ↦ inl (ground arith)
  | inr ((h, port), parts) ↦ elim (Bool-cases (same port (codes "443") || same port (codes "80"))) [
    | inl default_port ↦ inr (h, ground arith)
    | inr other ↦ inl (ground arith)
  ]
]

-- A host line stays a host line, with or without its port.
kind_of-rewrite_host_line :
    (line : Bytes) → kind_of line ≡ host_line → kind_of (rewrite_host_line line) ≡ host_line
kind_of-rewrite_host_line line k = elim (rewrite_host_line-cases line) [
  | inl same_line ↦ rw same_line k
  | inr (h, stripped) ↦ rw stripped (kind_of_host h)
]

kept_cookie :
    (jar : List (Bytes × Bytes)) (body line : Bytes)
    → kind_of line ≡ cookie_line
    → All (MaySendLine jar body) (rewrite_line (not (is_empty jar)) cookie_line line)
unfolding rewrite_line is_empty
kept_cookie [] body line k = (rw k (inl refl), tt)
kept_cookie (kv ∷ jar) body line k = tt

connection_lines :
    (jar : List (Bytes × Bytes)) (body : Bytes) (seen : Bool)
    → All (MaySendLine jar body) (if seen then [] else connection_close ∷ [])
connection_lines jar body true = tt
connection_lines jar body false = (rw kind_of-connection_close refl, tt)

cookie_lines :
    (jar : List (Bytes × Bytes)) (body : Bytes) → All (MaySendLine jar body) (cookie_header jar)
unfolding cookie_header
cookie_lines [] body = tt
cookie_lines (kv ∷ jar) body =
    (rw (kind_of_cookie (join (cookie_pairs (kv ∷ jar)) (codes "; "))) (inr refl), tt)

length_lines :
    (jar : List (Bytes × Bytes)) (body : Bytes) → All (MaySendLine jar body) (length_header body)
unfolding length_header
length_lines jar [] = tt
length_lines jar (c ∷ body) = (rw (kind_of_content_length (itoa (length (c ∷ body)))) refl, tt)

module _ (jar : List (Bytes × Bytes)) (body : Bytes) where
  rewrite_line-MaySend :
      (kind : LineKind) (line : Bytes)
      → kind_of line ≡ kind
      → All (MaySendLine jar body) (rewrite_line (not (is_empty jar)) kind line)
  unfolding rewrite_line
  rewrite_line-MaySend cookie_line line k = kept_cookie jar body line k
  rewrite_line-MaySend accept_encoding_line line k = tt
  rewrite_line-MaySend content_length_line line k = tt
  rewrite_line-MaySend transfer_encoding_line line k = tt
  rewrite_line-MaySend connection_line line k = (rw kind_of-connection_close refl, tt)
  rewrite_line-MaySend host_line line k = (rw (kind_of-rewrite_host_line line k) tt, tt)
  rewrite_line-MaySend other_line line k = (rw k tt, tt)

  rewrite_lines-MaySend :
      (lines : List Bytes) → All (MaySendLine jar body) (rewrite_lines (not (is_empty jar)) lines)
  unfolding rewrite_lines
  rewrite_lines-MaySend [] = tt
  rewrite_lines-MaySend (line ∷ lines) =
      All-append (MaySendLine jar body) (rewrite_line (not (is_empty jar)) (kind_of line) line) _
        (rewrite_line-MaySend (kind_of line) line refl) (rewrite_lines-MaySend lines)

header_lines-MaySend :
    (lines : List Bytes) (jar : List (Bytes × Bytes)) (body : Bytes)
    → All (MaySendLine jar body) (header_lines lines jar body)
unfolding header_lines
header_lines-MaySend lines jar body =
    let P = MaySendLine jar body in
    All-append P (rewrite_lines (not (is_empty jar)) lines) _ (rewrite_lines-MaySend jar body lines)
      (All-append P (if connection_seen lines then [] else connection_close ∷ []) _
        (connection_lines jar body (connection_seen lines))
        (All-append P (cookie_header jar) _ (cookie_lines jar body) (length_lines jar body)))
