-- ===== src/HistoryTab/Csrf.antt =====
-- generateCSRFPoC and htmlAttrEscape of internal/ui/history.go: the page that sends a request again.
use shiv.Prelude.{
  ◌==◌, if◌then◌else◌, Bool-cases, ℕ, ◌≡◌, refl, ap, inl, inr, none, some, List, [], ◌∷◌, ◌++◌,
  arith,
}
use shiv.Text.{Bytes, codes, has_prefix, contains, contains_byte, cut, split, replace_all}
use shiv.Text.Split.{Lacks, Lacks-append}
use shiv.Http.Header.{get}
use shiv.History.{to_upper, Transaction}
use shiv.HistoryTab.Loading.{is_nil}

unfoldable pub html_attr_escape : Bytes → Bytes
html_attr_escape s =
    let amp = replace_all s (codes "&") (codes "&amp;") in
    let quot = replace_all amp (codes "\"") (codes "&quot;") in
    let lt = replace_all quot (codes "<") (codes "&lt;") in
    replace_all lt (codes ">") (codes "&gt;")

-- One `name=value` of a form body, as a hidden input; the value is empty where there is no `=`.
input_of : Bytes → Bytes → Bytes
unfolding html_attr_escape
input_of name value =
    codes "    <input type=\"hidden\" name=\""
    ++ (html_attr_escape name
        ++ (codes "\" value=\"" ++ (html_attr_escape value ++ codes "\" />\n")))

inputs_of : List Bytes → Bytes
unfolding input_of cut
inputs_of [] = []
inputs_of (pair ∷ pairs) =
    (elim (cut pair (codes "=")) [
      | none ↦ input_of pair []
      | some (name, value) ↦ input_of name value
    ])
    ++ inputs_of pairs

method_or_post : Bytes → Bytes
method_or_post [] = codes "POST"
method_or_post (c ∷ m) = c ∷ m

unfoldable pub generate_csrf_poc : Transaction → Bytes
unfolding inputs_of method_or_post html_attr_escape is_nil
generate_csrf_poc t =
    let is_form =
      contains (get t.req_headers (codes "Content-Type"))
        (codes "application/x-www-form-urlencoded") in
    codes "<!DOCTYPE html>\n<html>\n<body>\n<form id=\"csrf\" action=\""
    ++ (html_attr_escape t.url
        ++ (codes "\" method=\""
            ++ (method_or_post (to_upper t.method)
                ++ (codes "\">\n"
                    ++ ((if is_nil t.req_body
                          then []
                          else if is_form
                          then inputs_of (split t.req_body (codes "&"))
                          else [])
                        ++ codes
                            "  <input type=\"submit\" value=\"Submit\" />\n</form>\n<script>document.getElementById('csrf').submit();</script>\n</body>\n</html>\n")))))

-- What stands for a byte in an attribute.
abbrev pub escaped_byte : ℕ → Bytes
escaped_byte c =
    if c == b'&'
    then codes "&amp;"
    else if c == b'"'
    then codes "&quot;"
    else if c == b'<'
    then codes "&lt;"
    else if c == b'>'
    then codes "&gt;"
    else c ∷ []

pub escaped : Bytes → Bytes
escaped [] = []
escaped (c ∷ s) = escaped_byte c ++ escaped s

html_attr_escape-cons :
    (c : ℕ) (s : Bytes) → html_attr_escape (c ∷ s) ≡ escaped_byte c ++ html_attr_escape s
unfolding html_attr_escape replace_all has_prefix
html_attr_escape-cons c s = elim (Bool-cases (c == b'&')) [
  | inl amp ↦ let e : c ≡ b'&' = ground arith in rw e refl
  | inr no_amp ↦ elim (Bool-cases (c == b'"')) [
    | inl quot ↦ let e : c ≡ b'"' = ground arith in rw e refl
    | inr no_quot ↦ elim (Bool-cases (c == b'<')) [
      | inl lt ↦ let e : c ≡ b'<' = ground arith in rw e refl
      | inr no_lt ↦ elim (Bool-cases (c == b'>')) [
        | inl gt ↦ let e : c ≡ b'>' = ground arith in rw e refl
        | inr no_gt ↦ rw (no_amp, no_quot, no_lt, no_gt) refl
      ]
    ]
  ]
]

escaped_byte-Lacks :
    (c : ℕ)
    → Lacks b'"' (escaped_byte c) × Lacks b'<' (escaped_byte c) × Lacks b'>' (escaped_byte c)
unfolding contains_byte
escaped_byte-Lacks c = elim (Bool-cases (c == b'&')) [
  | inl amp ↦ rw amp (refl, refl, refl)
  | inr no_amp ↦ elim (Bool-cases (c == b'"')) [
    | inl quot ↦ rw (no_amp, quot) (refl, refl, refl)
    | inr no_quot ↦ elim (Bool-cases (c == b'<')) [
      | inl lt ↦ rw (no_amp, no_quot, lt) (refl, refl, refl)
      | inr no_lt ↦ elim (Bool-cases (c == b'>')) [
        | inl gt ↦ rw (no_amp, no_quot, no_lt, gt) (refl, refl, refl)
        | inr no_gt ↦ rw (no_amp, no_quot, no_lt, no_gt) (ground arith, ground arith, ground arith)
      ]
    ]
  ]
]

-- The four replacements of `htmlAttrEscape`, made one after the other, are one pass that puts for
-- each byte what stands for it, so that no entity is escaped again. The result holds no quote and no
-- angle bracket: in the page it does not leave its attribute.
pub html_attr_escape-escaped :
    (s : Bytes)
    → (html_attr_escape s ≡ escaped s)
      × Lacks b'"' (html_attr_escape s)
      × Lacks b'<' (html_attr_escape s)
      × Lacks b'>' (html_attr_escape s)
unfolding escaped
html_attr_escape-escaped [] =
    unfold html_attr_escape replace_all contains_byte in (refl, refl, refl, refl)
html_attr_escape-escaped (c ∷ s) =
    let rest = html_attr_escape s in
    let e = html_attr_escape-cons c s in
    let (same, quot, lt, gt) = html_attr_escape-escaped s in
    let b = escaped_byte-Lacks c in
    rw e (
      ap (λ x. escaped_byte c ++ x) same,
      Lacks-append b'"' (escaped_byte c) rest b.0 quot,
      Lacks-append b'<' (escaped_byte c) rest b.1 lt,
      Lacks-append b'>' (escaped_byte c) rest b.2 gt,
    )
