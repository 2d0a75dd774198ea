-- ===== src/Tests/Limits.antt =====
-- The rate limiter.
use postgre_data_migration_a.Prelude.{
  ℕ, ◌+◌, ◌<◌, ◌≤◌, true, false, [], ◌∷◌, ◌≡◌, refl, arith, length, codes, leb,
}
use postgre_data_migration_a.Tests.Samples.{settings}
use postgre_data_migration_a.RateLimit.{
  Key, write, Buckets, max_tracked_clients, hits_of, popleft, decide, admit, check, retry_after,
  Request, client_of, middleware, too_many,
}
use postgre_data_migration_a.RateLimit.Log.{is_allowed, admit_all, specify}
use postgre_data_migration_a.RateLimit.Window.{admit_all-specify, admit-retry_after}
use postgre_data_migration_a.RateLimit.Buckets.{check_bound}

-- Two requests in a window of 10: the third is early.
admit_all_run : admit_all 2 10 [] (1 ∷ 2 ∷ 5 ∷ 11 ∷ []) ≡ true ∷ true ∷ false ∷ true ∷ []
unfolding admit_all admit popleft decide
admit_all_run = refl

admit_all-specify_example :
    admit_all 2 10 [] (1 ∷ 2 ∷ 5 ∷ 11 ∷ []) ≡ specify 2 10 [] (1 ∷ 2 ∷ 5 ∷ 11 ∷ [])
admit_all-specify_example =
    admit_all-specify 2 10 (omega arith) (1 ∷ 2 ∷ 5 ∷ 11 ∷ [])
      (omega arith, (omega arith, (omega arith, (omega arith, tt))))

admit_refused : (admit 2 10 5 (1 ∷ 2 ∷ [])).1 ≡ retry_after 6
unfolding admit popleft decide
admit_refused = refl

admit-retry_after_example :
    (0 < 6) × ((t : ℕ) → is_allowed (admit 2 10 t (admit 2 10 5 (1 ∷ 2 ∷ [])).0).1 ≡ leb (5 + 6) t)
admit-retry_after_example =
    admit-retry_after 2 10 (omega arith) 5 6 (1 ∷ 2 ∷ []) (omega arith) admit_refused

abbrev alice : Key
alice = record { client = codes "key:alice"; scope = write }

abbrev bob : Key
bob = record { client = codes "ip:bob"; scope = write }

abbrev one_bucket : Buckets
one_bucket = (bob, 1 ∷ []) ∷ []

check_bound_example : length (check 1 10 5 alice one_bucket).0 ≤ max_tracked_clients
check_bound_example = check_bound 1 10 5 alice one_bucket (omega arith)

abbrev upload : Request
upload = record {
  path = codes "/api/csv/upload";
  method = codes "POST";
  api_key = codes "made up";
  host = codes "10.0.0.1";
}

abbrev full_bucket : Buckets
full_bucket = (record { client = codes "key:made up"; scope = write }, 1 ∷ []) ∷ []

too_many_run : (middleware settings 5 upload full_bucket).1 ≡ too_many 60
unfolding middleware check hits_of client_of popleft admit decide
too_many_run = refl
