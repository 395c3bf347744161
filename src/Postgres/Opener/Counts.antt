-- ===== src/Postgres/Opener/Counts.antt =====
-- How often an opener of internal/connection/postgres/opener.go has a pool in its cache, and among the
-- pools that are closed.
use dataporch.Prelude.{ℕ, ◌+◌, ◌≡◌, List, [], ◌∷◌, Option, none, some, if◌then◌else◌, ◌==◌, arith}
use dataporch.Text.{Text}
use dataporch.Assoc.{Assoc, lookup, insert, remove}
use dataporch.Postgres.Opener.{CacheEntry}

abbrev pub is_it : ℕ → Option ℕ → ℕ
is_it p none = 0
is_it p (some q) = if q == p then 1 else 0

-- How often a pool is handed to a closer, and how often it is cached.
unfoldable pub closings : ℕ → List ℕ → ℕ
closings p [] = 0
closings p (q ∷ qs) = is_it p (some q) + closings p qs

abbrev pub client_of : Option CacheEntry → Option ℕ
client_of none = none
client_of (some e) = e.client

unfoldable pub cachings : ℕ → Assoc CacheEntry → ℕ
cachings p [] = 0
cachings p ((id, e) ∷ rest) = is_it p e.client + cachings p rest

pub cachings-insert :
    (p : ℕ) (id : Text) (e : CacheEntry) (m : Assoc CacheEntry)
    → cachings p (insert id e m) + is_it p (client_of (lookup id m))
      ≡ cachings p m + is_it p e.client
unfolding cachings insert lookup
cachings-insert p id e [] = ground arith
cachings-insert p id e ((j, x) ∷ m) = ground (arith, cachings-insert p id e m)

pub cachings-remove :
    (p : ℕ) (id : Text) (m : Assoc CacheEntry)
    → cachings p (remove id m) + is_it p (client_of (lookup id m)) ≡ cachings p m
unfolding cachings remove lookup
cachings-remove p id [] = ground arith
cachings-remove p id ((j, x) ∷ m) = ground (arith, cachings-remove p id m)
