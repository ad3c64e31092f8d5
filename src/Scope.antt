-- ===== src/Scope.antt =====
-- internal/store/scope.go: the scope table, its cache, and the test of a host against it.
pub mod Matching
pub mod Cache
mod Tests
use shiv.Prelude.{
  ◌==◌, if◌then◌else◌, ℕ, ◌+◌, Bool, true, false, ◌||◌, Option, none, some, List, [], ◌∷◌, ◌++◌,
}
use shiv.Text.{Bytes, same, has_suffix, split_host_port}

pub record ScopeEntry : Type 0 where
  pub id : ℕ
  pub host : Bytes

-- The table `scope` in the order of its ids, which only grow, and the cache: `none` where
-- `scopeCacheSet` is false.
pub record ScopeStore : Type 0 where
  pub rows : List ScopeEntry
  pub next_id : ℕ
  pub cache : Option (List ScopeEntry)

-- `SELECT id, host FROM scope ORDER BY id ASC`; `fails` is an error of the database.
unfoldable pub all_scope_entries : Bool → ScopeStore → Option (List ScopeEntry)
all_scope_entries fails s = if fails then none else some s.rows

unfoldable pub has_host : Bytes → List ScopeEntry → Bool
unfolding same
has_host host [] = false
has_host host (e ∷ es) = same e.host host || has_host host es

unfoldable pub without_id : ℕ → List ScopeEntry → List ScopeEntry
without_id id [] = []
without_id id (e ∷ es) = let rest = without_id id es in if e.id == id then rest else e ∷ rest

unfoldable pub invalidate_scope_cache : ScopeStore → ScopeStore
invalidate_scope_cache s = record s { cache = none }

-- The column `host` is UNIQUE, so a host that is there already is an error too. The flag returned
-- says that there was no error.
unfoldable pub add_scope_entry : Bool → Bytes → ScopeStore → Bool × ScopeStore
unfolding has_host invalidate_scope_cache
add_scope_entry fails host s = if fails || has_host host s.rows then (false, s) else (
  true,
  invalidate_scope_cache (record s {
    rows = s.rows ++ record { id = s.next_id; host = host } ∷ [];
    next_id = s.next_id + 1;
  }),
)

unfoldable pub delete_scope_entry : Bool → ℕ → ScopeStore → Bool × ScopeStore
unfolding without_id invalidate_scope_cache
delete_scope_entry fails id s =
    if fails
    then (false, s)
    else (true, invalidate_scope_cache (record s { rows = without_id id s.rows }))

-- `"." + e.Host`
abbrev pub dotted : Bytes → Bytes
dotted host = b'.' ∷ host

any_entry : List ScopeEntry → Bytes → Bool
unfolding same has_suffix
any_entry [] host = false
any_entry (e ∷ es) host = same host e.host || has_suffix host (dotted e.host) || any_entry es host

unfoldable pub matches_scope : List ScopeEntry → Bytes → Bool
unfolding any_entry
matches_scope [] host = true
matches_scope (e ∷ es) host = any_entry (e ∷ es) host

-- The host of `host:port`, or the text itself where `net.SplitHostPort` fails.
unfoldable pub strip_port : Bytes → Bytes
strip_port host = elim (split_host_port host) [ none ↦ host | some (h, port) ↦ h ]

entries_of : Option (List ScopeEntry) → List ScopeEntry
entries_of none = []
entries_of (some es) = es

-- `InScope`, with the answer and the store after it.
unfoldable pub in_scope : Bool → ScopeStore → Bytes → Bool × ScopeStore
unfolding strip_port all_scope_entries matches_scope entries_of
in_scope fails s host =
    let bare = strip_port host in
    elim s.cache [
      | some entries ↦ (matches_scope entries bare, s)
      | none ↦
          let loaded = all_scope_entries fails s in
          (matches_scope (entries_of loaded) bare, record s { cache = loaded })
    ]
