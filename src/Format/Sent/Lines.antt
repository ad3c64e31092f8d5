-- ===== src/Format/Sent/Lines.antt =====
-- The first two lines of the text of `FormatStoreRequest`, as `ParseHostFromRaw` reads them.
use shiv.Prelude.{
  ◌==◌, ℕ, ◌≡◌, refl, sym, ap, ◌∙◌, subst, true, false, some, List, [], ◌∷◌, ◌++◌, append-nil,
  append_assoc, arith,
}
use shiv.Text.{
  Bytes, codes, has_prefix, contains_byte, cut, split, is_space, trim_space, fields, lower_byte,
  to_lower,
}
use shiv.Text.Host.{IsPlain}
use shiv.Text.Split.{Lacks, split-cons, glue, split-append, Lacks-append}
use shiv.Text.Words.{
  HasNoSpace, trim_space_word, trim_space_return, trim_space_blank, fields_second, cut-append,
  to_lower-append, has_prefix-longer, no_field, trim_space_split, last_of, no_newline,
}
use shiv.Http.RawRequest.{crlf, lf, first_raw_line, host_value, scheme_tls}

abbrev pub IsMethod : Bytes → Type 0
IsMethod [] = ⊥
IsMethod (c ∷ m) = HasNoSpace (c ∷ m) × (contains_byte b':' (c ∷ m) ≡ false)

-- A path that starts with a slash and lies on one line.
abbrev pub IsPath : Bytes → Type 0
IsPath [] = ⊥
IsPath (c ∷ s) = (c ≡ b'/') × Lacks b'\n' s

abbrev pub IsHostName : Bytes → Type 0
IsHostName [] = ⊥
IsHostName (c ∷ s) = HasNoSpace (c ∷ s) × IsPlain (c ∷ s)

-- A header line `Host: value`, with its carriage return.
host_line-lem :
    (value : Bytes) (lines : List Bytes) (c : ℕ) (s : Bytes)
    → value ≡ c ∷ s
    → HasNoSpace value
    → host_value ((codes "Host: " ++ (value ++ b'\r' ∷ [])) ∷ lines) ≡ some value
unfolding host_value
host_line-lem value lines c s e h =
    let h' : HasNoSpace (c ∷ s) = subst HasNoSpace e h in
    let (t, d, last, k) = last_of c s h' in
    let line = codes "ost: " ++ c ∷ s in
    let trimmed : trim_space (b'H' ∷ (codes "ost: " ++ (c ∷ s ++ b'\r' ∷ []))) ≡ b'H' ∷ line =
      unfold is_space in
      trim_space_return b'H' line refl
      ∙ trim_space_word b'H' line d (codes "Host: " ++ t) refl k
          (ap (λ x. codes "Host: " ++ x) last) in
    let found : has_prefix (to_lower (b'H' ∷ line)) (codes "host:") ≡ true =
      unfold has_prefix to_lower lower_byte in refl in
    rw (e, trimmed, found)
      (ap some (trim_space_blank (c ∷ s) ∙ trim_space_word c s d t h'.0 k last))

first_line-skipped :
    (c : ℕ) (m s : Bytes) (lines : List Bytes)
    → IsMethod (c ∷ m)
    → host_value ((c ∷ (m ++ b' ' ∷ s)) ∷ lines) ≡ host_value lines
unfolding host_value
first_line-skipped c m s lines h =
    let (w, e) = trim_space_split c (m ++ b' ' ∷ s) h.0.0 in
    let none_there : has_prefix (to_lower (c ∷ (m ++ b' ' ∷ s))) (codes "host:") ≡ false =
      no_field (c ∷ m) s (codes "host:") h.1 (unfold contains_byte in refl)
        (unfold contains_byte in refl) in
    let t = trim_space (c ∷ (m ++ b' ' ∷ s)) in
    let skipped : has_prefix (to_lower t) (codes "host:") ≡ false =
      has_prefix-longer (to_lower t) (to_lower w) (codes "host:") (
        ap (λ x. has_prefix x (codes "host:")) (sym (to_lower-append t w))
        ∙ ap (λ x. has_prefix (to_lower x) (codes "host:")) (sym e)
        ∙ none_there) in
    rw skipped refl

-- The text of a request, with its first two lines set apart.
abbrev pub request_text : Bytes → Bytes → Bytes → Bytes → Bytes → Bytes
request_text method path proto host rest =
    method
    ++ (codes " "
        ++ (path
            ++ (codes " " ++ (proto ++ (crlf ++ (codes "Host: " ++ (host ++ (crlf ++ rest))))))))

abbrev line_one : Bytes → Bytes → Bytes → Bytes
line_one method path proto = method ++ (b' ' ∷ (path ++ (b' ' ∷ (proto ++ b'\r' ∷ []))))

abbrev line_two : Bytes → Bytes
line_two host = codes "Host: " ++ (host ++ b'\r' ∷ [])

request_text-lines :
    (method path proto host rest : Bytes)
    → request_text method path proto host rest
      ≡ line_one method path proto ++ b'\n' ∷ (line_two host ++ b'\n' ∷ rest)
request_text-lines method path proto host rest = simp append_assoc

first_raw_line-cut :
    (raw line behind : Bytes) → cut raw lf ≡ some (line, behind) → first_raw_line raw ≡ line
unfolding first_raw_line
first_raw_line-cut raw line behind e = ground arith

scheme_tls_second :
    (raw line behind x y : Bytes) (ts : List Bytes)
    → cut raw lf ≡ some (line, behind)
    → fields line ≡ x ∷ y ∷ ts
    → scheme_tls raw ≡ has_prefix y (codes "https://")
unfolding scheme_tls
scheme_tls_second raw line behind x y ts e h = rw (first_raw_line-cut raw line behind e, h) refl

module _ (c : ℕ) (m : Bytes) (d : ℕ) (p : Bytes) (proto host rest : Bytes)
    (is_method : IsMethod (c ∷ m)) (is_path : IsPath (d ∷ p)) (one_line : Lacks b'\n' proto) where
  line_one-Lacks : Lacks b'\n' (line_one (c ∷ m) (d ∷ p) proto)
  unfolding contains_byte
  line_one-Lacks =
      let slash : (d == b'\n') ≡ false = let e = is_path.0 in ground arith in
      let end : Lacks b'\n' (proto ++ b'\r' ∷ []) =
        Lacks-append b'\n' proto (b'\r' ∷ []) one_line refl in
      let tail : Lacks b'\n' (d ∷ p ++ b' ' ∷ (proto ++ b'\r' ∷ [])) =
        Lacks-append b'\n' (d ∷ p) (b' ' ∷ (proto ++ b'\r' ∷ [])) (rw slash is_path.1) end in
      Lacks-append b'\n' (c ∷ m) (b' ' ∷ (d ∷ p ++ b' ' ∷ (proto ++ b'\r' ∷ [])))
        (no_newline (c ∷ m) is_method.0) tail

  scheme_tls-request : scheme_tls (request_text (c ∷ m) (d ∷ p) proto host rest) ≡ false
  scheme_tls-request =
      let line = line_one (c ∷ m) (d ∷ p) proto in
      let cut_there : cut (request_text (c ∷ m) (d ∷ p) proto host rest) lf
          ≡ some (line, line_two host ++ b'\n' ∷ rest) =
        ap (λ x. cut x lf) (request_text-lines (c ∷ m) (d ∷ p) proto host rest)
        ∙ cut-append b'\n' line (line_two host ++ b'\n' ∷ rest) line_one-Lacks in
      let slash : is_space d ≡ false = let e = is_path.0 in unfold is_space in ground arith in
      let (x, t, ts, e) =
        fields_second c m d (p ++ b' ' ∷ (proto ++ b'\r' ∷ [])) is_method.0 slash in
      scheme_tls_second (request_text (c ∷ m) (d ∷ p) proto host rest) line
        (line_two host ++ b'\n' ∷ rest) x (d ∷ t) ts cut_there e
      ∙ (let q = is_path.0 in unfold has_prefix in ground arith)

  host_value-request :
      {a : ℕ} {s : Bytes}
      → host ≡ a ∷ s
      → HasNoSpace host
      → host_value (split (request_text (c ∷ m) (d ∷ p) proto host rest) lf) ≡ some host
  host_value-request {a} {s} e h =
      let line = line_one (c ∷ m) (d ∷ p) proto in
      let second : Lacks b'\n' (line_two host) =
        Lacks-append b'\n' (codes "Host: ") (host ++ b'\r' ∷ []) (unfold contains_byte in refl) (
          Lacks-append b'\n' host (b'\r' ∷ []) (no_newline host h)
            (unfold contains_byte in refl)) in
      let later = split rest lf in
      let lines : split (request_text (c ∷ m) (d ∷ p) proto host rest) lf
          ≡ line ∷ line_two host ∷ later =
        ap (λ x. split x lf) (request_text-lines (c ∷ m) (d ∷ p) proto host rest)
        ∙ split-append line (b'\n' ∷ (line_two host ++ b'\n' ∷ rest)) line_one-Lacks
        ∙ ap (glue line) (
            split-cons b'\n' (line_two host ++ b'\n' ∷ rest)
            ∙ ap (◌∷◌ []) (
                split-append (line_two host) (b'\n' ∷ rest) second
                ∙ ap (glue (line_two host)) (split-cons b'\n' rest)))
        ∙ ap (λ l. l ∷ (line_two host ++ []) ∷ later) (append-nil line)
        ∙ ap (λ l. line ∷ l ∷ later) (append-nil (line_two host)) in
      ap host_value lines
      ∙ first_line-skipped c m (d ∷ p ++ b' ' ∷ (proto ++ b'\r' ∷ [])) (line_two host ∷ later)
          is_method
      ∙ host_line-lem host later a s e h

pub request_facts :
    (method path proto host rest : Bytes) (a : ℕ) (s : Bytes)
    → IsMethod method
    → IsPath path
    → Lacks b'\n' proto
    → host ≡ a ∷ s
    → HasNoSpace host
    → (host_value (split (request_text method path proto host rest) lf) ≡ some host)
      × (scheme_tls (request_text method path proto host rest) ≡ false)
request_facts [] path proto host rest a s im ip one e h = absurd im
request_facts (c ∷ m) [] proto host rest a s im ip one e h = absurd ip
request_facts (c ∷ m) (d ∷ p) proto host rest a s im ip one e h = (
  host_value-request c m d p proto host rest im ip one e h,
  scheme_tls-request c m d p proto host rest im ip one,
)
