-- ===== src/Http/Header.antt =====
-- Go's `http.Header`: a map from canonical keys to lists of values. A map is an association list
-- here; the program nowhere depends on the order in which Go walks a map.
pub mod Laws
use shiv.Prelude.{
  ℕ, Bool, true, false, not, ◌&&◌, ◌||◌, Option, none, some, List, [], ◌∷◌, ◌++◌, leb, ◌==◌,
  if◌then◌else◌,
}
use shiv.Text.{Bytes, codes, same, contains_byte, lower_byte, upper_byte}

abbrev pub Header : Type 0
Header = List (Bytes × List Bytes)

-- A byte that may stand in the name of a header field (a token byte).
is_field_byte : ℕ → Bool
unfolding contains_byte
is_field_byte c =
    leb b'a' c && leb c b'z'
    || leb b'A' c && leb c b'Z'
    || leb b'0' c && leb c b'9'
    || contains_byte c (codes "!#$%&'*+-.^_`|~")

all_field_bytes : Bytes → Bool
unfolding is_field_byte
all_field_bytes [] = true
all_field_bytes (c ∷ s) = is_field_byte c && all_field_bytes s

-- upper case at the start and after a dash, lower case elsewhere
capitalise : Bool → Bytes → Bytes
unfolding upper_byte lower_byte
capitalise start [] = []
capitalise start (c ∷ s) = (if start then upper_byte c else lower_byte c) ∷ capitalise (c == b'-') s

-- http.CanonicalHeaderKey
unfoldable pub canonical_key : Bytes → Bytes
unfolding all_field_bytes capitalise
canonical_key k = if all_field_bytes k then capitalise true k else k

-- h[k], with `none` where the map has no such key
unfoldable pub values : Header → Bytes → Option (List Bytes)
values [] k = none
values ((j, vs) ∷ h) k = if same j k then some vs else values h k

-- delete(h, k)
unfoldable pub remove : Header → Bytes → Header
remove [] k = []
remove ((j, vs) ∷ h) k = let rest = remove h k in if same j k then rest else (j, vs) ∷ rest

-- h[k] = vs
unfoldable pub put : Header → Bytes → List Bytes → Header
unfolding remove
put h k vs = (k, vs) ∷ remove h k

-- h.Del(k)
unfoldable pub del : Header → Bytes → Header
unfolding remove canonical_key
del h k = remove h (canonical_key k)

-- h.Set(k, v)
unfoldable pub set_value : Header → Bytes → Bytes → Header
unfolding put canonical_key
set_value h k v = put h (canonical_key k) (v ∷ [])

first_of_values : Option (List Bytes) → Bytes
first_of_values (some (v ∷ vs)) = v
first_of_values _ = []

-- h.Get(k)
unfoldable pub get : Header → Bytes → Bytes
unfolding first_of_values canonical_key values
get h k = first_of_values (values h (canonical_key k))

all_values : Option (List Bytes) → List Bytes
all_values (some vs) = vs
all_values none = []

-- h.Add(k, v)
unfoldable pub add : Header → Bytes → Bytes → Header
unfolding all_values put canonical_key values
add h k v = put h (canonical_key k) (all_values (values h (canonical_key k)) ++ v ∷ [])
