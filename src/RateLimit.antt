-- ===== src/RateLimit.antt =====
-- api/ratelimit.py: the sliding-window limiter with its LRU table of buckets, and the middleware.
-- Times are milliseconds of the monotonic clock.
pub mod Log
pub mod Window
pub mod Buckets
use postgre_data_migration_a.Prelude.{
  ℕ, zero, suc, ◌+◌, ◌-◌, ◌*◌, ◌/◌, Bool, true, false, ◌&&◌, ◌||◌, Option, none, some, List, [],
  ◌∷◌, ◌++◌, length, take, max, Text, codes, same, member, leb, ltb, ◌==◌, if◌then◌else◌,
}
use postgre_data_migration_a.Config.{Settings}

pub data Scope : Type 0 where
  read write : Scope

abbrev pub same_scope : Scope → Scope → Bool
same_scope read read = true
same_scope write write = true
same_scope _ _ = false

-- `(client, scope)`.
pub record Key : Type 0 where
  pub client : Text
  pub scope : Scope

abbrev pub same_key : Key → Key → Bool
same_key a b = same a.client b.client && same_scope a.scope b.scope

-- `_buckets`, the least recently used first. A bucket holds its hits, the oldest first.
abbrev pub Buckets : Type 0
Buckets = List (Key × List ℕ)

abbrev pub max_tracked_clients : ℕ
max_tracked_clients = 4096

unfoldable pub hits_of : Key → Buckets → List ℕ
hits_of k [] = []
hits_of k ((j, hits) ∷ bs) = if same_key k j then hits else hits_of k bs

unfoldable pub without : Key → Buckets → Buckets
without k [] = []
without k ((j, hits) ∷ bs) =
    let rest = without k bs in if same_key k j then rest else (j, hits) ∷ rest

-- `while hits and hits[0] <= cutoff: hits.popleft()`, with `cutoff = stamp - window`.
unfoldable pub popleft : ℕ → ℕ → List ℕ → List ℕ
popleft window stamp [] = []
popleft window stamp (h ∷ hits) =
    let rest = popleft window stamp hits in if leb (h + window) stamp then rest else h ∷ hits

pub data Verdict : Type 0 where
  allowed : Verdict
  retry_after : ℕ → Verdict

-- The test of the limit on what is left of a bucket. `limit` is positive here.
unfoldable pub decide : ℕ → ℕ → ℕ → List ℕ → List ℕ × Verdict
decide limit window stamp [] = (stamp ∷ [], allowed)
decide limit window stamp (h ∷ hits) =
    if leb limit (length (h ∷ hits))
    then (h ∷ hits, retry_after (h + window - stamp))
    else ((h ∷ hits) ++ stamp ∷ [], allowed)

unfoldable pub admit : ℕ → ℕ → ℕ → List ℕ → List ℕ × Verdict
unfolding popleft decide
admit limit window stamp hits = decide limit window stamp (popleft window stamp hits)

-- `while len(self._buckets) > _MAX_TRACKED_CLIENTS: self._buckets.popitem(last=False)`.
unfoldable pub evict : Buckets → Buckets
evict [] = []
evict (b ∷ bs) =
    let rest = evict bs in if ltb max_tracked_clients (length (b ∷ bs)) then rest else b ∷ bs

-- What `check` leaves of the table, with the bucket moved to the end.
unfoldable pub conclude : Buckets → Key → List ℕ × Verdict → Buckets × Verdict
unfolding evict
conclude others key (hits, allowed) = (evict (others ++ (key, hits) ∷ []), allowed)
conclude others key (hits, retry_after wait) = (others ++ (key, hits) ∷ [], retry_after wait)

-- `SlidingWindowLimiter.check`.
unfoldable pub check : ℕ → ℕ → ℕ → Key → Buckets → Buckets × Verdict
unfolding conclude hits_of without admit
check limit window stamp key buckets =
    if limit == 0
    then (buckets, allowed)
    else conclude (without key buckets) key (admit limit window stamp (hits_of key buckets))

-- `SlidingWindowLimiter.reset`.
abbrev pub reset : Buckets → Buckets
reset buckets = []

pub record Request : Type 0 where
  pub path : Text
  pub method : Text
  pub api_key : Text
  pub host : Text

abbrev pub exempt_paths : List Text
exempt_paths = codes "/api/health" ∷ codes "/openapi.json" ∷ codes "/docs" ∷ codes "/redoc" ∷ []

abbrev pub or_unknown : Text → Text
or_unknown [] = codes "unknown"
or_unknown (c ∷ host) = c ∷ host

-- `_client_id`. An absent header, and an absent peer, are empty texts.
unfoldable pub client_of : Text → Text → Text
client_of [] host = codes "ip:" ++ or_unknown host
client_of (c ∷ key) host = codes "key:" ++ take 8 (c ∷ key)

abbrev pub client_id : Request → Text
client_id r = client_of r.api_key r.host

abbrev pub is_write : Text → Bool
is_write method = member method (codes "POST" ∷ codes "PUT" ∷ codes "PATCH" ∷ codes "DELETE" ∷ [])

pub data Answer : Type 0 where
  next : Answer
  too_many : ℕ → Answer

-- `max(1, int(retry_after + 0.999))`, in seconds.
abbrev pub answer_of : Verdict → Answer
answer_of allowed = next
answer_of (retry_after wait) = too_many (max 1 ((wait + 999) / 1000))

abbrev pub minute : ℕ
minute = 60000

-- `rate_limit_middleware`: `next` hands the request to the route.
unfoldable pub middleware : Settings → ℕ → Request → Buckets → Buckets × Answer
unfolding check client_of
middleware settings now r buckets =
    if member r.path exempt_paths
    then (buckets, next)
    else (let scope = if is_write r.method then write else read in
        let budget =
          if is_write r.method then settings.rate_limit_writes else settings.rate_limit_reads in
        let (buckets', verdict) =
          check budget minute now (record { client = client_id r; scope = scope }) buckets in
        (buckets', answer_of verdict))
