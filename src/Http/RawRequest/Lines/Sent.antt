-- ===== src/Http/RawRequest/Lines/Sent.antt =====
-- The header fields that `rewriteHeaders` sends, with the names read in any case.
use shiv.Prelude.{
  ◌==◌, if◌then◌else◌, Bool-cases, length, drop, All, All-map, count_p, count_p-append, ℕ, ◌≡◌, ◌≢◌,
  refl, sym, ap, ◌∙◌, subst, ◌⊎◌, inl, inr, Bool, true, false, not, ◌&&◌, List, [], ◌∷◌, ◌++◌, map,
  arith,
}
use shiv.Text.{Bytes, codes, join, has_prefix, to_lower, lower_byte}
use shiv.Text.Equality.{has_prefix_split}
use shiv.Text.Number.{itoa}
use shiv.Http.RawRequest.{
  kind_of, connection_close, rewrite_lines, connection_seen, cookie_pairs, is_empty, cookie_header,
  length_header, header_lines, LineKind, cookie_line, accept_encoding_line, content_length_line,
  transfer_encoding_line, connection_line,
}
use shiv.Http.RawRequest.Lines.{
  MaySend, MaySendLine, header_lines-MaySend, rewrite_lines-MaySend, connection_lines, cookie_lines,
}

-- The line is the name, in any case, and a colon. The name is given in lower case.
abbrev pub is_field : Bytes → Bytes → Bool
is_field [] [] = false
is_field [] (c ∷ line) = c == b':'
is_field (n ∷ name) [] = false
is_field (n ∷ name) (c ∷ line) = lower_byte c == n && is_field name line

is_field-prefix :
    (name line : Bytes)
    → lower_byte b':' ≡ b':'
    → is_field name line ≡ true
    → has_prefix (to_lower line) (name ++ codes ":") ≡ true
unfolding has_prefix to_lower lower_byte
is_field-prefix [] [] k h = cc
is_field-prefix [] (c ∷ line) k h = ground arith
is_field-prefix (n ∷ name) [] k h = cc
is_field-prefix (n ∷ name) (c ∷ line) k h = ground (arith, is_field-prefix name line k)

-- Such a line is in lower case the name, a colon and the value.
is_field-split :
    (name line : Bytes)
    → is_field name line ≡ true
    → to_lower line ≡ (name ++ codes ":") ++ drop (length (name ++ codes ":")) (to_lower line)
unfolding lower_byte
is_field-split name line h =
    has_prefix_split (to_lower line) (name ++ codes ":") (is_field-prefix name line refl h)

kind_of-cookie :
    (line rest : Bytes) → to_lower line ≡ codes "cookie:" ++ rest → kind_of line ≡ cookie_line
unfolding kind_of has_prefix
kind_of-cookie line rest h = rw (h, kind_of) refl

kind_of-accept :
    (line rest : Bytes)
    → to_lower line ≡ codes "accept-encoding:" ++ rest
    → kind_of line ≡ accept_encoding_line
unfolding kind_of has_prefix
kind_of-accept line rest h = rw (h, kind_of) refl

kind_of-length :
    (line rest : Bytes)
    → to_lower line ≡ codes "content-length:" ++ rest
    → kind_of line ≡ content_length_line
unfolding kind_of has_prefix
kind_of-length line rest h = rw (h, kind_of) refl

kind_of-transfer :
    (line rest : Bytes)
    → to_lower line ≡ codes "transfer-encoding:" ++ rest
    → kind_of line ≡ transfer_encoding_line
unfolding kind_of has_prefix
kind_of-transfer line rest h = rw (h, kind_of) refl

kind_of-connection :
    (line rest : Bytes)
    → to_lower line ≡ codes "connection:" ++ rest
    → kind_of line ≡ connection_line
unfolding kind_of has_prefix
kind_of-connection line rest h = rw (h, kind_of) refl

-- What a line that is sent is, by its name.
abbrev pub SentAs : List (Bytes × Bytes) → Bytes → Bytes → Type 0
SentAs jar body line =
    (is_field (codes "accept-encoding") line ≡ false)
    × (is_field (codes "transfer-encoding") line ≡ false)
    × ((is_field (codes "connection") line ≡ false) ⊎ (line ≡ codes "Connection: close"))
    × ((is_field (codes "content-length") line ≡ false)
        ⊎ ((body ≢ []) × (line ≡ codes "Content-Length: " ++ itoa (length body))))
    × ((is_field (codes "cookie") line ≡ false)
        ⊎ (jar ≡ [])
        ⊎ (line
            ≡ codes "Cookie: " ++ join (map (λ kv. kv.0 ++ (codes "=" ++ kv.1)) jar) (codes "; ")))

head_eq {ℓ} : {A : Type ℓ} {x y : A} → x ∷ [] ≡ y ∷ [] → x ≡ y
head_eq e = cc

cookie_pairs_lem :
    (jar : List (Bytes × Bytes)) → cookie_pairs jar ≡ map (λ kv. kv.0 ++ (codes "=" ++ kv.1)) jar
unfolding cookie_pairs
cookie_pairs_lem [] = refl
cookie_pairs_lem ((k, v) ∷ jar) = ap (◌∷◌ (k ++ (codes "=" ++ v))) (cookie_pairs_lem jar)

of_length :
    (body line : Bytes)
    → length_header body ≡ line ∷ []
    → (body ≢ []) × (line ≡ codes "Content-Length: " ++ itoa (length body))
unfolding length_header
of_length [] line h = cc
of_length (c ∷ body) line h = (λ e. cc, sym (head_eq h))

of_jar :
    (jar : List (Bytes × Bytes)) (line : Bytes)
    → cookie_header jar ≡ line ∷ []
    → line ≡ codes "Cookie: " ++ join (map (λ kv. kv.0 ++ (codes "=" ++ kv.1)) jar) (codes "; ")
unfolding cookie_header
of_jar [] line h = cc
of_jar (kv ∷ jar) line h =
    sym (head_eq h)
    ∙ ap (λ ps. codes "Cookie: " ++ join ps (codes "; ")) (cookie_pairs_lem (kv ∷ jar))

module _ (jar : List (Bytes × Bytes)) (body line : Bytes) (may : MaySendLine jar body line) where
  may_as : (k : LineKind) → kind_of line ≡ k → MaySend jar body k line
  may_as k e = subst (λ k. MaySend jar body k line) e may

  not_accept : is_field (codes "accept-encoding") line ≡ false
  not_accept = elim (Bool-cases (is_field (codes "accept-encoding") line)) [
    | inr other ↦ other
    | inl e ↦ absurd (
        may_as accept_encoding_line
          (kind_of-accept line _ (is_field-split (codes "accept-encoding") line e)))
  ]

  not_transfer : is_field (codes "transfer-encoding") line ≡ false
  not_transfer = elim (Bool-cases (is_field (codes "transfer-encoding") line)) [
    | inr other ↦ other
    | inl e ↦ absurd (
        may_as transfer_encoding_line
          (kind_of-transfer line _ (is_field-split (codes "transfer-encoding") line e)))
  ]

  closing : (is_field (codes "connection") line ≡ false) ⊎ (line ≡ codes "Connection: close")
  closing = elim (Bool-cases (is_field (codes "connection") line)) [
    | inr other ↦ inl other
    | inl e ↦ inr (
        may_as connection_line
          (kind_of-connection line _ (is_field-split (codes "connection") line e)))
  ]

  computed :
      (is_field (codes "content-length") line ≡ false)
      ⊎ ((body ≢ []) × (line ≡ codes "Content-Length: " ++ itoa (length body)))
  computed = elim (Bool-cases (is_field (codes "content-length") line)) [
    | inr other ↦ inl other
    | inl e ↦ inr (
        of_length body line (
          may_as content_length_line
            (kind_of-length line _ (is_field-split (codes "content-length") line e))))
  ]

  from_jar :
      (is_field (codes "cookie") line ≡ false)
      ⊎ (jar ≡ [])
      ⊎ (line ≡ codes "Cookie: " ++ join (map (λ kv. kv.0 ++ (codes "=" ++ kv.1)) jar) (codes "; "))
  from_jar = elim (Bool-cases (is_field (codes "cookie") line)) [
    | inr other ↦ inl other
    | inl e ↦
        elim (may_as cookie_line (kind_of-cookie line _ (is_field-split (codes "cookie") line e))) [
          | inl no_jar ↦ inr (inl no_jar)
          | inr own ↦ inr (inr (of_jar jar line own))
        ]
  ]

  MaySend-SentAs : SentAs jar body line
  MaySend-SentAs = (not_accept, not_transfer, closing, computed, from_jar)

-- Of the lines that are sent, with their names read in any case, none is an Accept-Encoding or a
-- Transfer-Encoding, every Connection is `Connection: close`, a Content-Length is there only with a
-- body and gives its length, and a Cookie line is the pairs of the jar, unless the jar is empty.
pub header_lines-SentAs :
    (lines : List Bytes) (jar : List (Bytes × Bytes)) (body : Bytes)
    → All (SentAs jar body) (header_lines lines jar body)
header_lines-SentAs lines jar body =
    All-map (MaySendLine jar body) (SentAs jar body) (MaySend-SentAs jar body)
      (header_lines lines jar body) (header_lines-MaySend lines jar body)

-- The Content-Length lines of a list of lines.
abbrev pub count_lengths : List Bytes → ℕ
count_lengths = count_p (is_field (codes "content-length"))

-- A list in which every Content-Length line would be the one of an empty body has none.
no_lengths :
    (jar : List (Bytes × Bytes)) (lines : List Bytes)
    → All (MaySendLine jar []) lines
    → count_lengths lines ≡ 0
no_lengths jar [] h = refl
no_lengths jar (line ∷ lines) h = elim (computed jar [] line h.0) [
  | inr (there, e) ↦ absurd (there refl)
  | inl other ↦ rw other (omega (arith, no_lengths jar lines h.1))
]

one_length : (c : ℕ) (body : Bytes) → count_lengths (length_header (c ∷ body)) ≡ 1
unfolding length_header lower_byte
one_length c body = refl

count_lengths-header_lines :
    (lines : List Bytes) (jar : List (Bytes × Bytes)) (body : Bytes)
    → count_lengths (header_lines lines jar body) ≡ count_lengths (length_header body)
unfolding header_lines
count_lengths-header_lines lines jar body =
    let p = is_field (codes "content-length") in
    let kept = rewrite_lines (not (is_empty jar)) lines in
    let closed = if connection_seen lines then [] else connection_close ∷ [] in
    omega (
      arith,
      count_p-append p kept (closed ++ (cookie_header jar ++ length_header body)),
      count_p-append p closed (cookie_header jar ++ length_header body),
      count_p-append p (cookie_header jar) (length_header body),
      no_lengths jar kept (rewrite_lines-MaySend jar [] lines),
      no_lengths jar closed (connection_lines jar [] (connection_seen lines)),
      no_lengths jar (cookie_header jar) (cookie_lines jar []),
    )

-- Whatever Content-Length lines the request had, in any case, it is sent with exactly one if it has a
-- body, and with none if the body is empty.
pub header_lines-one_length :
    (lines : List Bytes) (jar : List (Bytes × Bytes)) (c : ℕ) (body : Bytes)
    → (count_lengths (header_lines lines jar (c ∷ body)) ≡ 1)
      × (count_lengths (header_lines lines jar []) ≡ 0)
header_lines-one_length lines jar c body = (
  count_lengths-header_lines lines jar (c ∷ body) ∙ one_length c body,
  count_lengths-header_lines lines jar [] ∙ unfold length_header in refl,
)
