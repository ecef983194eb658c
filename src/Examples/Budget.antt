-- ===== src/Examples/Budget.antt =====
-- Two connections of a service with two tasks, and two threads that race for one.
use hical.Base.{ℕ, ◌+◌, ◌≤◌, ◌≡◌, ◌↔◌, refl, true, arith, List, [], ◌∷◌}
use hical.Http2.Budget.{
  receive_bytes, State, no_lease, server, acquire, acquire_application_task, acquire_receive,
  try_resize, reset, assign,
}
use hical.Http2.Budget.Laws.{acquire_iff, Covers}
use hical.Http2.Budget.World.{
  Connection, World, Call, starts_task, receives, resizes, resets, assigns, run, step, call,
  IsAccounted, IsConserved,
}
use hical.Http2.Budget.World.Conserved.{run-IsConserved}
use hical.Http2.Budget.Race.{
  Threads, outside, loaded, holding, Reach, here, next, loads, exchanges, IsExact, Reach-IsExact,
}

abbrev small_state : State
small_state = record {
  used = record { protocol_streams = 0; application_tasks = 0; receive = 0; send = 0 };
  limits = record { protocol_streams = 2; application_tasks = 2; receive = 100; send = 100 };
  stream_receive_limit = 60;
  has_service = true;
}

abbrev fresh : Connection
fresh = record { role = server; state = small_state; leases = [] }

abbrev two_connections : World
two_connections = record {
  service = record { limit = 2; used = 0 };
  connections = fresh ∷ fresh ∷ [];
}

fresh-IsAccounted : IsAccounted fresh
fresh-IsAccounted = record {
  bounded = λ r. ground arith;
  fits = λ r. ground arith;
  counted = λ r. ground arith;
}

two_connections-IsConserved : IsConserved two_connections
two_connections-IsConserved = record {
  bounded = omega arith;
  fits = omega arith;
  counted = refl;
  accounted = (fresh-IsAccounted, (fresh-IsAccounted, tt));
}

abbrev history : List (ℕ × Call)
history =
    (0, starts_task)
    ∷ (1, starts_task)
    ∷ (1, starts_task)
    ∷ (0, receives 10)
    ∷ (0, resizes 0 60)
    ∷ (0, assigns 1 0)
    ∷ (1, resets 1)
    ∷ []

-- The third task is refused by the service; the move gave back the first, the reset the second.
history_runs : (run two_connections history).service ≡ record { limit = 2; used = 0 }
unfolding run step call acquire_application_task acquire_receive acquire try_resize reset assign
history_runs = refl

run-IsConserved_example : IsConserved (run two_connections history)
run-IsConserved_example = run-IsConserved two_connections history two_connections-IsConserved

small-Covers : Covers (record { state = small_state; service = two_connections.service }) no_lease
small-Covers = record {
  bounded = λ r. ground arith;
  fits = λ r. ground arith;
  covers = λ r. ground arith;
  service_bounded = omega arith;
  service_fits = omega arith;
  service_covers = omega arith;
}

acquire_iff_example :
    ((acquire
        (record { state = small_state; service = two_connections.service })
        receive_bytes
        61
        60).1.held
      ≡ true)
    ↔ ((61 ≤ 60) × (0 + 61 ≤ 100) × (true ≡ true))
acquire_iff_example =
    acquire_iff (record { state = small_state; service = two_connections.service }) receive_bytes 61
      60 small-Covers

abbrev racing : Threads
racing = record { service = record { limit = 1; used = 0 }; threads = outside ∷ outside ∷ [] }

race :
    Reach racing
      (record { service = record { limit = 1; used = 1 }; threads = holding ∷ loaded 0 ∷ [] })
race = next (next (next here (loads 0 refl)) (loads 1 refl)) (exchanges 0 0 refl (omega arith) refl)

Reach-IsExact_example :
    IsExact (record { service = record { limit = 1; used = 1 }; threads = holding ∷ loaded 0 ∷ [] })
Reach-IsExact_example =
    Reach-IsExact race (record { small = omega arith; exact = refl; fits = omega arith })
