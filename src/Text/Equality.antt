-- ===== src/Text/Equality.antt =====
-- `same` decides equality, and prefixes and suffixes are what their names say.
use shiv.Prelude.{
  true, [], ◌∷◌, ◌++◌, ◌≡◌, ◌↔◌, refl, ap, sym, ◌∙◌, arith, length, drop, leb, ◌-◌, length-append,
  take, take-append-drop, drop-append_length,
}
use shiv.Text.{Bytes, same, has_prefix, has_suffix}

pub same_iff : (a b : Bytes) → (same a b ≡ true) ↔ (a ≡ b)
unfolding same
same_iff (x ∷ a) (y ∷ b) = ground (arith, same_iff a b)
same_iff _ _ = ground arith

pub same_refl : (a : Bytes) → same a a ≡ true
same_refl a = (same_iff a a).1 refl

pub has_prefix-append : (p s : Bytes) → has_prefix (p ++ s) p ≡ true
unfolding has_prefix
has_prefix-append [] s = refl
has_prefix-append (x ∷ p) s = ground (arith, has_prefix-append p s)

pub has_prefix_split : (s p : Bytes) → has_prefix s p ≡ true → s ≡ p ++ drop (length p) s
unfolding has_prefix
has_prefix_split s [] h = refl
has_prefix_split [] (y ∷ p) h = ground arith
has_prefix_split (x ∷ s) (y ∷ p) h = ground (arith, has_prefix_split s p)

pub has_suffix-append : (a p : Bytes) → has_suffix (a ++ p) p ≡ true
unfolding has_suffix
has_suffix-append a p =
    let n : length (a ++ p) - length p ≡ length a = omega (arith, length-append a p) in
    let fits : leb (length p) (length (a ++ p)) ≡ true = ground (arith, length-append a p) in
    rw (fits, n, drop-append_length) (same_refl p)

pub has_suffix_split : (s p : Bytes) → has_suffix s p ≡ true → s ≡ take (length s - length p) s ++ p
unfolding has_suffix
has_suffix_split s p h =
    let tail : drop (length s - length p) s ≡ p =
      (same_iff (drop (length s - length p) s) p).0 (ground arith) in
    sym (take-append-drop (length s - length p) s)
    ∙ ap (λ t. take (length s - length p) s ++ t) tail
