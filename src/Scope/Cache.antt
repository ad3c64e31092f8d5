-- ===== src/Scope/Cache.antt =====
-- The scope cache agrees with the table, also while readers and writers interleave.
use shiv.Prelude.{ℕ, suc, ◌+◌, ◌≡◌, refl, Bool, true, false, Option, none, some, List, arith}
use shiv.Text.{Bytes}
use shiv.Scope.{
  add_scope_entry, delete_scope_entry, matches_scope, strip_port, in_scope, ScopeEntry, ScopeStore,
}

abbrev pub Caches : Option (List ScopeEntry) → List ScopeEntry → Type 0
Caches none rows = Unit
Caches (some es) rows = es ≡ rows

abbrev pub IsCoherent : ScopeStore → Type 0
IsCoherent s = Caches s.cache s.rows

-- Every operation keeps the cache equal to the table where it is set, whether the database fails or
-- not.
pub scope-IsCoherent :
    (s : ScopeStore) (fails : Bool) (host : Bytes) (id : ℕ)
    → IsCoherent s
    → IsCoherent (add_scope_entry fails host s).1
      × IsCoherent (delete_scope_entry fails id s).1
      × IsCoherent (in_scope fails s host).1
unfolding add_scope_entry delete_scope_entry in_scope
scope-IsCoherent s fails host id c = (ground arith, ground arith, ground arith)

-- With a coherent cache and a database that answers, `InScope` is the test on the table.
pub in_scope-matches_scope :
    (s : ScopeStore) (host : Bytes)
    → IsCoherent s
    → (in_scope false s host).0 ≡ matches_scope s.rows (strip_port host)
unfolding in_scope
in_scope-matches_scope s host c = ground arith

-- The shared state: the table, the cache, and the read that the goroutine in the critical section
-- of `InScope` has made, if the lock is held. `unfinished` counts the writers that have changed the
-- table and have not yet cleared the cache.
pub record Shared : Type 0 where
  pub rows : List ScopeEntry
  pub cache : Option (List ScopeEntry)
  pub locked : Bool
  pub loaded : Option (List ScopeEntry)
  pub unfinished : ℕ

abbrev pub fresh : List ScopeEntry → Shared
fresh rows = record { rows = rows; cache = none; locked = false; loaded = none; unfinished = 0 }

-- One access by one goroutine. A write to the table may leave any rows.
pub data Step (s : Shared) (t : Shared) : Type 0 where
  write :
      (rows : List ScopeEntry)
      → t ≡ record s { rows = rows; unfinished = s.unfinished + 1 }
      → Step s t
  invalidate :
      (n : ℕ)
      → s.unfinished ≡ suc n
      → s.locked ≡ false
      → t ≡ record s { cache = none; unfinished = n }
      → Step s t
  lock : s.locked ≡ false → t ≡ record s { locked = true; loaded = none } → Step s t
  query : s.locked ≡ true → s.cache ≡ none → t ≡ record s { loaded = some s.rows } → Step s t
  store :
      (es : List ScopeEntry)
      → s.locked ≡ true
      → s.loaded ≡ some es
      → t ≡ record s { cache = some es; locked = false; loaded = none }
      → Step s t
  unlock : s.locked ≡ true → t ≡ record s { locked = false; loaded = none } → Step s t

pub data Reach (s : Shared) : Shared → Type 0 where
  here : Reach s s
  next : {t u : Shared} → Reach s t → Step t u → Reach s u

record IsQuiet (s : Shared) : Type 0 where
  cached : s.unfinished ≡ 0 → Caches s.cache s.rows
  reading : s.unfinished ≡ 0 → Caches s.loaded s.rows
  unlocked : s.locked ≡ false → s.loaded ≡ none

Step-IsQuiet : (s t : Shared) → Step s t → IsQuiet s → IsQuiet t
Step-IsQuiet s t (write rows e) q = rw e (record {
  cached = λ z. ground arith;
  reading = λ z. ground arith;
  unlocked = λ z. ground arith;
})
Step-IsQuiet s t (invalidate n m l e) q = rw e (record {
  cached = λ z. ground arith;
  reading = λ z. ground arith;
  unlocked = λ z. ground arith;
})
Step-IsQuiet s t (lock l e) q = rw e (record {
  cached = λ z. ground arith;
  reading = λ z. ground arith;
  unlocked = λ z. ground arith;
})
Step-IsQuiet s t (query l c e) q = rw e (record {
  cached = λ z. ground arith;
  reading = λ z. ground arith;
  unlocked = λ z. ground arith;
})
Step-IsQuiet s t (store es l d e) q = rw e (record {
  cached = λ z. ground arith;
  reading = λ z. ground arith;
  unlocked = λ z. ground arith;
})
Step-IsQuiet s t (unlock l e) q = rw e (record {
  cached = λ z. ground arith;
  reading = λ z. ground arith;
  unlocked = λ z. ground arith;
})

Reach-IsQuiet : (rows : List ScopeEntry) {s : Shared} → Reach (fresh rows) s → IsQuiet s
Reach-IsQuiet rows here = record { cached = λ _. tt; reading = λ _. tt; unlocked = λ _. refl }
Reach-IsQuiet rows (next r st) = Step-IsQuiet _ _ st (Reach-IsQuiet rows r)

-- Whatever the interleaving, when every writer has finished, a cache that is set is the table.
pub Reach-Caches :
    (rows : List ScopeEntry) (s : Shared)
    → Reach (fresh rows) s
    → s.unfinished ≡ 0
    → Caches s.cache s.rows
Reach-Caches rows s r = (Reach-IsQuiet rows r).cached
