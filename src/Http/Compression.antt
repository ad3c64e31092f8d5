-- ===== src/Http/Compression.antt =====
-- internal/http/compression.go. The decoders (compress/gzip, zlib and flate, brotli, zstd) are
-- parameters: what each reads from a body, and `none` for an error.
pub mod Branches
use shiv.Prelude.{
  leb, if◌then◌else◌, length, take, ℕ, ◌*◌, Bool, true, false, not, ◌||◌, Option, none, some, List,
  [], ◌∷◌, ◌++◌,
}
use shiv.Text.{Bytes, codes, same, contains, trim_space, to_lower}
use shiv.Http.Header.{Header, get}

abbrev pub max_display_bytes : ℕ
max_display_bytes = 64 * 1024

pub record Decoders : Type 0 where
  pub gzip : Bytes → Option Bytes
  pub zlib : Bytes → Option Bytes
  pub flate : Bytes → Option Bytes
  pub brotli : Bytes → Option Bytes
  pub zstd : Bytes → Option Bytes

or_body : Option Bytes → Bytes → Bytes
or_body none body = body
or_body (some out) body = out

-- zlib first, then raw DEFLATE
inflate : Decoders → Bytes → Bytes
unfolding or_body
inflate d body = elim (d.zlib body) [ some out ↦ out | none ↦ or_body (d.flate body) body ]

-- The value of Content-Encoding that the code switches on.
unfoldable pub encoding_of : Header → Bytes
encoding_of h = to_lower (trim_space (get h (codes "Content-Encoding")))

unfoldable pub decompress : Decoders → Header → Bytes → Bytes
unfolding or_body inflate
decompress d h body =
    let encoding = encoding_of h in
    if same encoding (codes "gzip")
    then or_body (d.gzip body) body
    else if same encoding (codes "deflate")
    then inflate d body
    else if same encoding (codes "br")
    then or_body (d.brotli body) body
    else if same encoding (codes "zstd")
    then or_body (d.zstd body) body
    else body

-- The encodings of the switch in `IsBinary`.
unfoldable pub known_encoding : Bytes → Bool
known_encoding e =
    same e []
    || same e (codes "identity")
    || same e (codes "gzip")
    || same e (codes "deflate")
    || same e (codes "br")
    || same e (codes "zstd")

abbrev pub text_prefixes : List Bytes
text_prefixes =
    codes "text/"
    ∷ codes "application/json"
    ∷ codes "application/xml"
    ∷ codes "application/javascript"
    ∷ codes "application/x-www-form-urlencoded"
    ∷ codes "application/xhtml"
    ∷ codes "application/ld+json"
    ∷ codes "application/graphql"
    ∷ codes "application/x-yaml"
    ∷ codes "application/yaml"
    ∷ []

unfoldable pub contains_any : Bytes → List Bytes → Bool
contains_any s [] = false
contains_any s (p ∷ ps) = contains s p || contains_any s ps

unfoldable pub is_binary : Header → Bool
unfolding known_encoding contains_any
is_binary h =
    let ct = to_lower (get h (codes "Content-Type")) in
    if not (known_encoding (encoding_of h))
    then true
    else if same ct []
    then false
    else not (contains_any ct text_prefixes)

abbrev pub notice : Bytes
notice = codes "\n... truncated"

unfoldable pub truncate_body : Bytes → Bytes
truncate_body body =
    if leb (length body) max_display_bytes then body else take max_display_bytes body ++ notice
