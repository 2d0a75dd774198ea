-- ===== src/Startup/Borrow/Counted.antt =====
-- `_borrow_with_timeout` and `Conn` of api/db.py: where the connections are that are out of the pool.
use postgre_data_migration_a.Prelude.{◌+◌, ◌≤◌, ◌<◌, ◌≡◌, refl, arith, Bool, true, false}
use postgre_data_migration_a.Startup.Borrow.{
  max_conn, Traffic, idle, leave, Step, enters, obtains, fails, times_out, obtains_late, fails_late,
  returns_late, leaves, failed_of, is_failed_rollback, Steps, done, more, failed_rollbacks,
}

-- Every connection that is out is with a request, with a callback, or lost.
pub record IsCounted (t : Traffic) : Type 0 where
  pub counted : t.out ≡ t.held + (t.returning + t.lost)
  pub bounded : t.out ≤ max_conn

leave-IsCounted :
    (raised rolled_back : Bool) (t : Traffic)
    → 0 < t.held
    → IsCounted t
    → IsCounted (leave raised rolled_back t)
leave-IsCounted true true t some_held h = record {
  counted = omega (arith, h.counted, some_held);
  bounded = omega (arith, h.bounded);
}
leave-IsCounted true false t some_held h = record {
  counted = omega (arith, h.counted, some_held);
  bounded = omega (arith, h.bounded);
}
leave-IsCounted false rolled_back t some_held h = record {
  counted = omega (arith, h.counted, some_held);
  bounded = omega (arith, h.bounded);
}

Step-IsCounted : {t u : Traffic} → Step t u → IsCounted t → IsCounted u
Step-IsCounted enters h = record { counted = h.counted; bounded = h.bounded }
Step-IsCounted (obtains waits free) h = record {
  counted = omega (arith, h.counted);
  bounded = omega (arith, free);
}
Step-IsCounted (fails waits) h = record { counted = h.counted; bounded = h.bounded }
Step-IsCounted (times_out waits) h = record { counted = h.counted; bounded = h.bounded }
Step-IsCounted (obtains_late waits free) h = record {
  counted = omega (arith, h.counted);
  bounded = omega (arith, free);
}
Step-IsCounted (fails_late waits) h = record { counted = h.counted; bounded = h.bounded }
Step-IsCounted (returns_late some_late) h = record {
  counted = omega (arith, h.counted, some_late);
  bounded = omega (arith, h.bounded);
}
Step-IsCounted (leaves raised rolled_back some_held) h =
    leave-IsCounted raised rolled_back _ some_held h

Steps-IsCounted : {t : Traffic} → Steps idle t → IsCounted t
Steps-IsCounted done = record { counted = omega arith; bounded = omega arith }
Steps-IsCounted (more steps step) = Step-IsCounted step (Steps-IsCounted steps)

leave-lost :
    (raised rolled_back : Bool) (t : Traffic)
    → (leave raised rolled_back t).lost ≡ t.lost + failed_of raised rolled_back
leave-lost true true t = omega arith
leave-lost true false t = omega arith
leave-lost false rolled_back t = omega arith

Step-lost : {t u : Traffic} (step : Step t u) → u.lost ≡ t.lost + is_failed_rollback step
Step-lost enters = omega arith
Step-lost (obtains waits free) = omega arith
Step-lost (fails waits) = omega arith
Step-lost (times_out waits) = omega arith
Step-lost (obtains_late waits free) = omega arith
Step-lost (fails_late waits) = omega arith
Step-lost (returns_late some_late) = omega arith
Step-lost (leaves raised rolled_back some_held) = leave-lost raised rolled_back _

Steps-lost : {t : Traffic} (steps : Steps idle t) → t.lost ≡ failed_rollbacks steps
Steps-lost done = refl
Steps-lost (more steps step) = omega (arith, Steps-lost steps, Step-lost step)

-- In every state that the requests, the workers and the callbacks reach, at most eight connections
-- are out of the pool; each is with a request, with a callback that returns it, or was lost when a
-- rollback raised; and behind eight such rollbacks no request has a connection.
pub Steps-failed_rollbacks :
    {t : Traffic} (steps : Steps idle t)
    → (t.out ≡ t.held + (t.returning + failed_rollbacks steps))
      × (t.out ≤ max_conn)
      × (max_conn ≤ failed_rollbacks steps → t.held ≡ 0)
Steps-failed_rollbacks steps =
    let counted = Steps-IsCounted steps in
    let lost = Steps-lost steps in
    (
      omega (arith, counted.counted, lost),
      counted.bounded,
      λ all_lost. omega (arith, counted.counted, counted.bounded, lost, all_lost),
    )
