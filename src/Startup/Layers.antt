-- ===== src/Startup/Layers.antt =====
-- The middlewares of api/main.py: what a refused request gets.
use postgre_data_migration_a.Prelude.{ℕ, false, ◌≡◌, refl}
use postgre_data_migration_a.Config.{Settings}
use postgre_data_migration_a.RateLimit.{too_many, Request, Buckets, middleware}
use postgre_data_migration_a.Startup.{Handler, app}

-- Whatever CORSMiddleware does and whatever the routes answer, a request that the rate limiter
-- refuses gets a 429 without CORS headers.
pub app-too_many :
    (cors_middleware : Handler → Handler) (settings : Settings) (now : ℕ) (buckets : Buckets)
    (routes : Handler) (r : Request) (seconds : ℕ)
    → (middleware settings now r buckets).1 ≡ too_many seconds
    → app cors_middleware (λ q. (middleware settings now q buckets).1) routes r
      ≡ record { status = 429; cors = false }
unfolding app
app-too_many cors_middleware settings now buckets routes r seconds refused = rw refused refl
