-- ===== src/Scope/Tests.antt =====
-- The scope on concrete entries.
use shiv.Prelude.{◌≡◌, refl, ◌↔◌, ◌⊎◌, true, false, List, [], ◌∷◌}
use shiv.Text.{codes}
use shiv.Scope.{matches_scope, ScopeEntry}
use shiv.Scope.Matching.{AnyCovers, matches_scope_iff}
use shiv.Scope.Cache.{
  Caches, fresh, Reach-Caches, Shared, write, invalidate, lock, query, store, Reach, here, next,
}

abbrev entries : List ScopeEntry
entries = record { id = 1; host = codes "a.test" } ∷ record { id = 2; host = codes "b.test" } ∷ []

subdomain_test : matches_scope entries (codes "www.b.test") ≡ true
unfolding matches_scope
subdomain_test = refl

lookalike_test : matches_scope entries (codes "notb.test") ≡ false
unfolding matches_scope
lookalike_test = refl

matches_scope_iff_example :
    (matches_scope entries (codes "www.b.test") ≡ true)
    ↔ ((entries ≡ []) ⊎ AnyCovers entries (codes "www.b.test"))
matches_scope_iff_example = matches_scope_iff entries (codes "www.b.test")

-- A reader loads the table, a writer adds a row behind its back, the reader stores what it has, and
-- the writer clears the cache.
abbrev raced : Shared
raced = record (fresh entries) { rows = [] }

raced-Reach : Reach (fresh entries) raced
raced-Reach =
    next
      (next (next (next (next here (lock refl refl)) (query refl refl refl)) (write [] refl))
        (store entries refl refl refl))
      (invalidate 0 refl refl refl)

Reach-Caches_example : Caches raced.cache raced.rows
Reach-Caches_example = Reach-Caches entries raced raced-Reach refl
