-- ===== src/Text/Host.antt =====
-- What `net.SplitHostPort` gives on the addresses that the proxy meets: `host:port` with a plain
-- host is taken apart, and a text with no colon is an error.
use shiv.Prelude.{ℕ, false, [], ◌∷◌, ◌++◌, ◌≡◌, refl, arith, none, some}
use shiv.Text.{Bytes, contains_byte, cut_last, split_host_port}

-- A host name or port with no colon and no bracket.
abbrev pub IsPlain : Bytes → Type 0
IsPlain s =
    (contains_byte b':' s ≡ false) × (contains_byte b'[' s ≡ false) × (contains_byte b']' s ≡ false)

cut_last-none : (b : ℕ) (s : Bytes) → contains_byte b s ≡ false → cut_last b s ≡ none
unfolding cut_last contains_byte
cut_last-none b [] h = refl
cut_last-none b (c ∷ s) h = ground (arith, cut_last-none b s)

cut_last-append :
    (b : ℕ) (x y : Bytes) → contains_byte b y ≡ false → cut_last b (x ++ b ∷ y) ≡ some (x, y)
unfolding cut_last
cut_last-append b [] y h = ground (arith, cut_last-none b y)
cut_last-append b (c ∷ x) y h = ground (arith, cut_last-append b x y)

pub split_host_port-append :
    (host port : Bytes)
    → IsPlain host
    → IsPlain port
    → split_host_port (host ++ b':' ∷ port) ≡ some (host, port)
unfolding split_host_port contains_byte
split_host_port-append [] port h p = ground (arith, cut_last-append b':' [] port)
split_host_port-append (c ∷ host) port h p = ground (arith, cut_last-append b':' (c ∷ host) port)

pub split_host_port-none : (s : Bytes) → contains_byte b':' s ≡ false → split_host_port s ≡ none
unfolding split_host_port
split_host_port-none s h = ground (arith, cut_last-none b':' s)
