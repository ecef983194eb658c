-- ===== src/Http2/Budget/World/Conserved.antt =====
-- Http2Budget.h: the counts of a service against its leases, under any sequence of calls.
use hical.Base.{
  ℕ, zero, suc, ◌+◌, ◌^◌, ◌≤◌, ◌<◌, ◌≡◌, ◌≢◌, refl, ap, subst, Bool, false, arith, inl, inr, some,
  ◌==◌, List, [], ◌∷◌, get_elem?, set, total, All, Option-cases, Bool-cases, total-set, le-total,
  get_elem?-set_ne,
}
use hical.Http2.Budget.{Service, Shared, Lease, no_lease, assign}
use hical.Http2.Budget.Laws.{
  share, tasks, shared_of, Covers, Exchange, acquire_protocol_stream-Exchange,
  acquire_application_task-Exchange, acquire_receive-Exchange, acquire_send-Exchange,
  try_resize-Exchange, reset-Exchange, reset-held, share_of_empty, tasks_of_empty,
}
use hical.Http2.Budget.World.{
  Connection, World, Call, opens_stream, starts_task, receives, sends, resizes, resets, assigns,
  call, step, run, IsAccounted, served, IsConserved,
}

-- What a call on one connection keeps, given the service as the other connections see it.
record Kept (v : Service) (c : Connection) (r : Service × Connection) : Type 0 where
  accounted : IsAccounted r.1
  balanced : r.0.used + served c ≡ v.used + served r.1
  within : r.0.used ≤ v.limit
  same_limit : r.0.limit ≡ v.limit

module _ (v : Service) (c : Connection) (small : v.limit < 2 ^ 64) (fits : v.used ≤ v.limit)
    (covers : served c ≤ v.used) (acc : IsAccounted c) where
  covered : (i : ℕ) (l : Lease) → get_elem? c.leases i ≡ some l → Covers (shared_of v c.state) l
  covered i l e = record {
    bounded = acc.bounded;
    fits = acc.fits;
    covers = λ r. omega (arith, acc.counted r, le-total (share r) c.leases i l e);
    service_bounded = small;
    service_fits = fits;
    service_covers = omega (arith, le-total (tasks c.state.has_service) c.leases i l e);
  }

  none_covered : Covers (shared_of v c.state) no_lease
  none_covered = record {
    bounded = acc.bounded;
    fits = acc.fits;
    covers = λ r. omega arith;
    service_bounded = small;
    service_fits = fits;
    service_covers = omega arith;
  }

  Kept-cons :
      {s' : Shared} {l' : Lease}
      → Exchange (shared_of v c.state) s' no_lease l'
      → Kept v c (s'.service, record c { state = s'.state; leases = l' ∷ c.leases })
  Kept-cons {s'} {l'} x = record {
    accounted = record {
      bounded = λ r. rw x.same_limits (acc.bounded r);
      fits = λ r. rw x.same_limits (x.within r);
      counted = λ r. omega (arith, x.counted r, acc.counted r);
    };
    balanced =
        omega (arith, x.served, ap (λ (b : Bool). total (tasks b) (l' ∷ c.leases)) x.same_service);
    within = x.service_within;
    same_limit = x.same_service_limit;
  }

  Kept-set :
      {s' : Shared} {l' : Lease} (i : ℕ) (l : Lease)
      → get_elem? c.leases i ≡ some l
      → Exchange (shared_of v c.state) s' l l'
      → Kept v c (s'.service, record c { state = s'.state; leases = set c.leases i l' })
  Kept-set {s'} {l'} i l e x = record {
    accounted = record {
      bounded = λ r. rw x.same_limits (acc.bounded r);
      fits = λ r. rw x.same_limits (x.within r);
      counted =
          λ r. omega (arith, x.counted r, acc.counted r, total-set (share r) c.leases i l l' e);
    };
    balanced = omega (
      arith,
      x.served,
      total-set (tasks c.state.has_service) c.leases i l l' e,
      ap (λ (b : Bool). total (tasks b) (set c.leases i l')) x.same_service,
    );
    within = x.service_within;
    same_limit = x.same_service_limit;
  }

  Kept-refl : Kept v c (v, c)
  Kept-refl = record { accounted = acc; balanced = refl; within = fits; same_limit = refl }

  -- What `l` held is given back, and `other` moves from place `j` to place `i`.
  Kept-moved :
      {s' : Shared} {l' : Lease} (i j : ℕ) (l other : Lease)
      → i ≢ j
      → get_elem? c.leases i ≡ some l
      → get_elem? c.leases j ≡ some other
      → Exchange (shared_of v c.state) s' l l'
      → l'.held ≡ false
      → let left = record other { held = false; amount = 0 } in
        Kept v c
          (s'.service, record c { state = s'.state; leases = set (set c.leases i other) j left })
  Kept-moved {s'} {l'} i j l other ne e e' x empty = record {
    accounted = record {
      bounded = λ r. rw x.same_limits (acc.bounded r);
      fits = λ r. rw x.same_limits (x.within r);
      counted = λ r. omega (
        arith,
        x.counted r,
        acc.counted r,
        total-set (share r) c.leases i l other e,
        total-set (share r) (set c.leases i other) j other left moved,
        share_of_empty r l' empty,
      );
    };
    balanced = omega (
      arith,
      x.served,
      total-set (tasks has_service) c.leases i l other e,
      total-set (tasks has_service) (set c.leases i other) j other left moved,
      tasks_of_empty has_service l' empty,
      ap (λ (b : Bool). total (tasks b) (set (set c.leases i other) j left)) x.same_service,
    );
    within = x.service_within;
    same_limit = x.same_service_limit;
  }
    where
      has_service : Bool
      has_service = c.state.has_service

      left : Lease
      left = record other { held = false; amount = 0 }

      moved : get_elem? (set c.leases i other) j ≡ some other
      moved = rw (get_elem?-set_ne c.leases i j other ne) e'

  Kept-assign :
      (i j : ℕ) (l other : Lease)
      → i ≢ j
      → get_elem? c.leases i ≡ some l
      → get_elem? c.leases j ≡ some other
      → let a = assign (shared_of v c.state) l other in
        Kept v c
          (a.0.service, record c { state = a.0.state; leases = set (set c.leases i a.1) j a.2 })
  unfolding assign
  Kept-assign i j l other ne e e' =
      let s = shared_of v c.state in
      Kept-moved i j l other ne e e' (reset-Exchange s l (covered i l e)) (reset-held s l)

  call-Kept : (k : Call) → Kept v c (call v c k)
  unfolding call
  call-Kept (opens_stream peer_limit) =
      Kept-cons (acquire_protocol_stream-Exchange c.role _ peer_limit none_covered)
  call-Kept starts_task = Kept-cons (acquire_application_task-Exchange _ none_covered)
  call-Kept (receives bytes) = Kept-cons (acquire_receive-Exchange _ bytes none_covered)
  call-Kept (sends bytes) = Kept-cons (acquire_send-Exchange _ bytes none_covered)
  call-Kept (resizes i bytes) = elim (Option-cases (get_elem? c.leases i)) [
    | inl e ↦ rw e Kept-refl
    | inr (l, e) ↦ rw e (Kept-set i l e (try_resize-Exchange _ l bytes (covered i l e)))
  ]
  call-Kept (resets i) = elim (Option-cases (get_elem? c.leases i)) [
    | inl e ↦ rw e Kept-refl
    | inr (l, e) ↦ rw e (Kept-set i l e (reset-Exchange _ l (covered i l e)))
  ]
  call-Kept (assigns i j) = elim (Option-cases (get_elem? c.leases i)) [
    | inl e ↦ rw e Kept-refl
    | inr (l, e) ↦ elim (Option-cases (get_elem? c.leases j)) [
      | inl e' ↦ rw (e, e') Kept-refl
      | inr (other, e') ↦ elim (Bool-cases (i == j)) [
        | inl same ↦ rw (e, e', same) Kept-refl
        | inr apart ↦ rw (e, e', apart) (Kept-assign i j l other (ground arith) e e')
      ]
    ]
  ]

-- The other connections, with one of them replaced.
total-set-served :
    (cs : List Connection) (i : ℕ) (c c' : Connection)
    → get_elem? cs i ≡ some c
    → total served (set cs i c') + served c ≡ total served cs + served c'
total-set-served cs i c c' e = total-set served cs i c c' e

All-get :
    (cs : List Connection) (i : ℕ) (c : Connection)
    → All IsAccounted cs
    → get_elem? cs i ≡ some c
    → IsAccounted c
All-get [] i c h e = cc
All-get (d ∷ cs) zero c h e = let same : d ≡ c = cc in subst IsAccounted same h.0
All-get (d ∷ cs) (suc i) c h e = All-get cs i c h.1 e

All-set :
    (cs : List Connection) (i : ℕ) (c : Connection)
    → All IsAccounted cs
    → IsAccounted c
    → All IsAccounted (set cs i c)
All-set [] i c h a = tt
All-set (d ∷ cs) zero c h a = (a, h.1)
All-set (d ∷ cs) (suc i) c h a = (h.0, All-set cs i c h.1 a)

-- Every call keeps the service's counter equal to the leases of all connections, and in its limit.
pub step-IsConserved : (w : World) (k : ℕ × Call) → IsConserved w → IsConserved (step w k)
unfolding step
step-IsConserved w (i, k) h = elim (Option-cases (get_elem? w.connections i)) [
  | inl e ↦ rw e h
  | inr (c, e) ↦
      let a = All-get w.connections i c h.accounted e in
      let kept =
        call-Kept w.service c h.bounded h.fits
          (omega (arith, h.counted, le-total served w.connections i c e)) a k in
      rw e (record {
        bounded = rw kept.same_limit h.bounded;
        fits = rw kept.same_limit kept.within;
        counted = omega (
          arith,
          kept.balanced,
          h.counted,
          total-set-served w.connections i c (call w.service c k).1 e,
        );
        accounted = All-set w.connections i (call w.service c k).1 h.accounted kept.accounted;
      })
]

-- If it holds at the start, then after any sequence of calls on any connections: each count of a
-- connection is the sum of what its leases hold, the service's counter is the number of tasks that
-- the leases of all connections hold, and every count is within its limit.
pub run-IsConserved : (w : World) (ks : List (ℕ × Call)) → IsConserved w → IsConserved (run w ks)
unfolding run
run-IsConserved w [] h = h
run-IsConserved w (k ∷ ks) h = run-IsConserved (step w k) ks (step-IsConserved w k h)
