-- ===== src/Startup/Borrow.antt =====
-- `_borrow_with_timeout` and `Conn` of api/db.py: the connections that requests borrow of the pool.
-- The pool is the driver's: `getconn` gives a connection while fewer than `maxconn` are out, or
-- raises, and `putconn` takes one back. It is the pool of one `init_pool`, up to `close_pool`.
pub mod Counted
use postgre_data_migration_a.Prelude.{ℕ, ◌+◌, ◌-◌, ◌<◌, Bool, true, false}

-- `_MAXCONN`.
abbrev pub max_conn : ℕ
max_conn = 8

-- How many requests wait for their future; how many futures are left behind by a timeout, and how
-- many of these have got a connection that the callback still returns; how many requests are in
-- the body of `with Conn()`; how many connections are out of the pool; and how many are out though
-- nobody has them.
pub record Traffic : Type 0 where
  pub waiting : ℕ
  pub abandoned : ℕ
  pub returning : ℕ
  pub held : ℕ
  pub out : ℕ
  pub lost : ℕ

abbrev pub idle : Traffic
idle = record { waiting = 0; abandoned = 0; returning = 0; held = 0; out = 0; lost = 0 }

-- `__enter__`: the call of `getconn` is submitted.
abbrev pub enter : Traffic → Traffic
enter t = record t { waiting = t.waiting + 1 }

-- `getconn` returns in time.
abbrev pub obtain : Traffic → Traffic
obtain t = record t { waiting = t.waiting - 1; held = t.held + 1; out = t.out + 1 }

-- `getconn` raises in time, and so does `__enter__`.
abbrev pub fail : Traffic → Traffic
fail t = record t { waiting = t.waiting - 1 }

-- FuturesTimeout: the PoolError, and the callback on the future.
abbrev pub time_out : Traffic → Traffic
time_out t = record t { waiting = t.waiting - 1; abandoned = t.abandoned + 1 }

-- `getconn` returns behind the timeout.
abbrev pub obtain_late : Traffic → Traffic
obtain_late t = record t {
  abandoned = t.abandoned - 1;
  returning = t.returning + 1;
  out = t.out + 1;
}

-- `getconn` raises behind the timeout: the callback passes.
abbrev pub fail_late : Traffic → Traffic
fail_late t = record t { abandoned = t.abandoned - 1 }

-- `_return_late_conn`.
abbrev pub return_late : Traffic → Traffic
return_late t = record t { returning = t.returning - 1; out = t.out - 1 }

-- `__exit__`. If the body has raised and `rollback` raises as well, `putconn` is not reached.
abbrev pub leave : Bool → Bool → Traffic → Traffic
leave true false t = record t { held = t.held - 1; lost = t.lost + 1 }
leave _ _ t = record t { held = t.held - 1; out = t.out - 1 }

-- One step of the requests, the workers and the callbacks; they happen in any order.
pub data Step (t : Traffic) : Traffic → Type 0 where
  enters : Step t (enter t)
  obtains : 0 < t.waiting → t.out < max_conn → Step t (obtain t)
  fails : 0 < t.waiting → Step t (fail t)
  times_out : 0 < t.waiting → Step t (time_out t)
  obtains_late : 0 < t.abandoned → t.out < max_conn → Step t (obtain_late t)
  fails_late : 0 < t.abandoned → Step t (fail_late t)
  returns_late : 0 < t.returning → Step t (return_late t)
  leaves : (raised rolled_back : Bool) → 0 < t.held → Step t (leave raised rolled_back t)

pub data Steps (t : Traffic) : Traffic → Type 0 where
  done : Steps t t
  more : {u v : Traffic} → Steps t u → Step u v → Steps t v

-- Whether a request leaves with a rollback that raises.
abbrev pub failed_of : Bool → Bool → ℕ
failed_of true false = 1
failed_of _ _ = 0

abbrev pub is_failed_rollback : {t u : Traffic} → Step t u → ℕ
is_failed_rollback (leaves raised rolled_back some_held) = failed_of raised rolled_back
is_failed_rollback _ = 0

abbrev pub failed_rollbacks : {t u : Traffic} → Steps t u → ℕ
failed_rollbacks done = 0
failed_rollbacks (more steps step) = failed_rollbacks steps + is_failed_rollback step
