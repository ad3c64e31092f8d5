-- ===== src/Scope/Matching.antt =====
-- Which hosts a list of scope entries admits.
use shiv.Prelude.{Bool-cases, ◌≡◌, refl, ◌↔◌, ◌⊎◌, inl, inr, true, ◌||◌, List, [], ◌∷◌, ◌++◌, arith}
use shiv.Text.{Bytes, same, has_suffix}
use shiv.Text.Equality.{same_iff, has_suffix-append, has_suffix_split}
use shiv.Scope.{dotted, any_entry, matches_scope, ScopeEntry}

-- The host is the entry's, or a subdomain of it.
abbrev pub Covers : ScopeEntry → Bytes → Type 0
Covers e host = (host ≡ e.host) ⊎ ((sub : Bytes) × (host ≡ sub ++ dotted e.host))

abbrev pub AnyCovers : List ScopeEntry → Bytes → Type 0
AnyCovers [] host = ⊥
AnyCovers (e ∷ es) host = Covers e host ⊎ AnyCovers es host

covered :
    (e : ScopeEntry) (host : Bytes)
    → Covers e host
    → (same host e.host || has_suffix host (dotted e.host)) ≡ true
covered e host (inl q) = ground (arith, (same_iff host e.host).1 q)
covered e host (inr (sub, q)) = rw q (ground (arith, has_suffix-append sub (dotted e.host)))

any_entry_complete :
    (es : List ScopeEntry) (host : Bytes) → AnyCovers es host → any_entry es host ≡ true
unfolding any_entry
any_entry_complete [] host h = absurd h
any_entry_complete (e ∷ es) host (inl c) = ground (arith, covered e host c)
any_entry_complete (e ∷ es) host (inr a) = ground (arith, any_entry_complete es host a)

any_entry_sound :
    (es : List ScopeEntry) (host : Bytes) → any_entry es host ≡ true → AnyCovers es host
unfolding any_entry
any_entry_sound [] host h = cc
any_entry_sound (e ∷ es) host h = elim (Bool-cases (same host e.host)) [
  | inl eq ↦ inl (inl ((same_iff host e.host).0 eq))
  | inr ne ↦ elim (Bool-cases (has_suffix host (dotted e.host))) [
    | inl sub ↦ inl (inr (_, has_suffix_split host (dotted e.host) sub))
    | inr other ↦ inr (any_entry_sound es host (ground arith))
  ]
]

-- A host is in scope exactly if the scope is empty, or one of its entries is the host itself or a
-- domain that the host is a subdomain of.
pub matches_scope_iff :
    (es : List ScopeEntry) (host : Bytes)
    → (matches_scope es host ≡ true) ↔ ((es ≡ []) ⊎ AnyCovers es host)
unfolding matches_scope
matches_scope_iff [] host = (λ _. inl refl, λ _. refl)
matches_scope_iff (e ∷ es) host = (λ h. inr (any_entry_sound (e ∷ es) host h), from)
  where
    from : ((e ∷ es ≡ []) ⊎ AnyCovers (e ∷ es) host) → any_entry (e ∷ es) host ≡ true
    from (inl q) = cc
    from (inr a) = any_entry_complete (e ∷ es) host a
