-- ===== src/HistoryTab/Filter/Paths.antt =====
-- A path below the prefix of a node is found by one of the three patterns of the query of the store.
use shiv.Prelude.{
  ◌==◌, Bool-cases, Option-cases, length, drop, ℕ, ◌≡◌, refl, sym, ap, ◌∙◌, subst, ◌≢◌, ◌⊎◌, inl,
  inr, Bool, true, false, ◌||◌, [], ◌∷◌, ◌++◌, append-nil, append_assoc, arith,
}
use shiv.Text.{Bytes, codes, same, has_prefix, cut, split}
use shiv.Text.Equality.{same_iff, has_prefix_split}
use shiv.Text.Words.{cut_split}
use shiv.History.{path_matches}
use shiv.Format.{from_slash, path_of}
use shiv.SiteMap.{before_query, tree_path_of}
use shiv.HistoryTab

-- What is used of LIKE: a percent sign stands for any text, and a text matches itself.
pub record LikeMatches (like : Bytes → Bytes → Bool) : Type 0 where
  pub at_end : (a p : Bytes) → like (a ++ p) (codes "%" ++ p) ≡ true
  pub inside : (a p b : Bytes) → like (a ++ (p ++ b)) (codes "%" ++ (p ++ codes "%")) ≡ true

-- A path is the end of its URL, or the slash that stands for an empty one.
from_slash_end : (s : Bytes) → ((a : Bytes) × (s ≡ a ++ from_slash s)) ⊎ (from_slash s ≡ codes "/")
unfolding from_slash
from_slash_end [] = inr refl
from_slash_end (c ∷ s) = elim (Bool-cases (c == b'/')) [
  | inl slash ↦ inl ([], rw slash refl)
  | inr other ↦ elim (from_slash_end s) [
    | inl (a, e) ↦ inl (c ∷ a, rw other (ap (◌∷◌ c) e))
    | inr e ↦ inr (rw other e)
  ]
]

behind_scheme :
    (url p : Bytes)
    → has_prefix url p ≡ true
    → ((a : Bytes) × (url ≡ a ++ from_slash (drop (length p) url)))
      ⊎ (from_slash (drop (length p) url) ≡ codes "/")
behind_scheme url p h = elim (from_slash_end (drop (length p) url)) [
  | inl (a, e) ↦
      inl (p ++ a, has_prefix_split url p h ∙ ap (λ x. p ++ x) e ∙ sym (append_assoc p a _))
  | inr e ↦ inr e
]

path_of_end : (url : Bytes) → ((a : Bytes) × (url ≡ a ++ path_of url)) ⊎ (path_of url ≡ codes "/")
unfolding path_of
path_of_end url = elim (Bool-cases (has_prefix url (codes "https://"))) [
  | inl https ↦ rw https (behind_scheme url (codes "https://") https)
  | inr not_https ↦ elim (Bool-cases (has_prefix url (codes "http://"))) [
    | inl http ↦ rw (not_https, http) (behind_scheme url (codes "http://") http)
    | inr neither ↦ rw (not_https, neither) (inl ([], refl))
  ]
]

query_split : (s : Bytes) → (before_query s ≡ s) ⊎ ((q : Bytes) × (s ≡ before_query s ++ b'?' ∷ q))
unfolding before_query
query_split s = elim (Option-cases (cut s (codes "?"))) [
  | inl none_there ↦ inl (rw (none_there, before_query) refl)
  | inr ((p, q), e) ↦ inr (q, rw (e, before_query) (cut_split b'?' s p q e))
]

prefix_split :
    (p prefix : Bytes)
    → has_prefix p (prefix ++ codes "/") ≡ true
    → (r : Bytes) × (p ≡ (prefix ++ codes "/") ++ r)
prefix_split p prefix h =
    (drop (length (prefix ++ codes "/")) p, has_prefix_split p (prefix ++ codes "/") h)

slash_only : (c : ℕ) (prefix : Bytes) → has_prefix (codes "/") (c ∷ (prefix ++ codes "/")) ≡ false
unfolding has_prefix
slash_only c [] = ground arith
slash_only c (d ∷ prefix) = ground arith

not_under_root :
    (c : ℕ) (prefix : Bytes)
    → c ∷ prefix ≢ codes "/"
    → HistoryTab.under_prefix (codes "/") (c ∷ prefix) ≢ true
unfolding HistoryTab.under_prefix
not_under_root c prefix other h = elim (Bool-cases (same (codes "/") (c ∷ prefix))) [
  | inl equal ↦ other (sym ((same_iff (codes "/") (c ∷ prefix)).0 equal))
  | inr differs ↦ let none_there = slash_only c prefix in ground arith
]

or_second : (a b c : Bool) → b ≡ true → (a || b || c) ≡ true
or_second a b c h = ground arith

or_third : (a b c : Bool) → c ≡ true → (a || b || c) ≡ true
or_third a b c h = ground arith

module _ (like : Bytes → Bytes → Bool) (laws : LikeMatches like) (c : ℕ) (prefix : Bytes) where
  -- The three patterns of the query.
  ends_with : (a : Bytes) → path_matches like (a ++ c ∷ prefix) (c ∷ prefix) ≡ true
  unfolding path_matches
  ends_with a = rw (laws.at_end a (c ∷ prefix)) refl

  holds_query :
      (a q : Bytes) → path_matches like (a ++ (c ∷ prefix ++ b'?' ∷ q)) (c ∷ prefix) ≡ true
  unfolding path_matches
  holds_query a q =
      let url = a ++ (c ∷ prefix ++ b'?' ∷ q) in
      let inner : like (a ++ ((c ∷ prefix ++ codes "?") ++ q))
            (codes "%" ++ ((c ∷ prefix ++ codes "?") ++ codes "%"))
          ≡ true =
        laws.inside a (c ∷ prefix ++ codes "?") q in
      or_second (like url (codes "%" ++ c ∷ prefix)) _ _ (
        subst (λ x. like (a ++ x) (codes "%" ++ (c ∷ prefix ++ codes "?%")) ≡ true)
          (append_assoc (c ∷ prefix) (codes "?") q)
          (subst (λ x. like (a ++ ((c ∷ prefix ++ codes "?") ++ q)) (codes "%" ++ x) ≡ true)
            (append_assoc (c ∷ prefix) (codes "?") (codes "%")) inner))

  holds_folder :
      (a r : Bytes) → path_matches like (a ++ ((c ∷ prefix ++ codes "/") ++ r)) (c ∷ prefix) ≡ true
  unfolding path_matches
  holds_folder a r =
      let url = a ++ ((c ∷ prefix ++ codes "/") ++ r) in
      or_third (like url (codes "%" ++ c ∷ prefix)) _ _ (
        subst (λ x. like url (codes "%" ++ x) ≡ true)
          (append_assoc (c ∷ prefix) (codes "/") (codes "%"))
          (laws.inside a (c ∷ prefix ++ codes "/") r))

  -- A URL that ends with a path below the prefix, with or without a query.
  path_below :
      (a p t : Bytes)
      → (t ≡ []) ⊎ ((q : Bytes) × (t ≡ b'?' ∷ q))
      → HistoryTab.under_prefix p (c ∷ prefix) ≡ true
      → path_matches like (a ++ (p ++ t)) (c ∷ prefix) ≡ true
  unfolding HistoryTab.under_prefix
  path_below a p t tail h = elim (Bool-cases (same p (c ∷ prefix))) [
    | inl equal ↦
        let e : p ≡ c ∷ prefix = (same_iff p (c ∷ prefix)).0 equal in
        rw e (elim tail [
          | inl none_there ↦ rw (none_there, append-nil (c ∷ prefix)) (ends_with a)
          | inr (q, query) ↦ rw query (holds_query a q)
        ])
    | inr other ↦
        let starts : has_prefix p (c ∷ prefix ++ codes "/") ≡ true = ground arith in
        let (r, e) = prefix_split p (c ∷ prefix) starts in
        rw (e, append_assoc (c ∷ prefix ++ codes "/") r t) (holds_folder a (r ++ t))
  ]

module _ (like : Bytes → Bytes → Bool) (laws : LikeMatches like) where
  pub path_passes :
      (url prefix : Bytes)
      → prefix ≢ codes "/"
      → HistoryTab.under_prefix (tree_path_of url) prefix ≡ true
      → path_matches like url prefix ≡ true
  unfolding tree_path_of
  path_passes url [] not_slash h = unfold path_matches in refl
  path_passes url (c ∷ prefix) not_slash h =
      let s = path_of url in
      elim (path_of_end url) [
        | inl (a, e) ↦ elim (query_split s) [
          | inl whole ↦ rw e (
              subst (λ x. path_matches like (a ++ x) (c ∷ prefix) ≡ true)
                (append-nil (before_query s) ∙ whole)
                (path_below like laws c prefix a (before_query s) [] (inl refl) h))
          | inr (q, split) ↦ rw e (
              subst (λ x. path_matches like (a ++ x) (c ∷ prefix) ≡ true) (sym split)
                (path_below like laws c prefix a (before_query s) (b'?' ∷ q) (inr (q, refl)) h))
        ]
        | inr slash ↦
            let root : before_query s ≡ codes "/" =
              ap before_query slash ∙ unfold before_query cut has_prefix in refl in
            absurd (
              not_under_root c prefix not_slash
                (ap (λ x. HistoryTab.under_prefix x (c ∷ prefix)) (sym root) ∙ h))
      ]
