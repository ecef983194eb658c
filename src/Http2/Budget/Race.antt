-- ===== src/Http2/Budget/Race.antt =====
-- `Http2ServiceBudget::State` under any number of threads: the compare-exchange loop of `acquire`
-- and `fetch_sub` of `release`, an atomic access to a step, in any order.
use hical.Base.{
  ℕ, ◌^◌, ◌≤◌, ◌<◌, ◌≡◌, arith, some, List, get_elem?, set, total, total-set, le-total, sub64,
  add64,
}
use hical.Http2.Budget.{Service}

-- Where a thread stands: outside, with `current` loaded, or holding a task.
pub data Thread : Type 0 where
  outside : Thread
  loaded : ℕ → Thread
  holding : Thread

pub record Threads : Type 0 where
  pub service : Service
  pub threads : List Thread

abbrev move : Threads → ℕ → Thread → ℕ → Threads
move t i to used = record {
  service = record { limit = t.service.limit; used = used };
  threads = set t.threads i to;
}

-- `compare_exchange_weak` may fail for no reason, and then reloads `current`.
pub data Step (t : Threads) : Threads → Type 0 where
  loads :
      (i : ℕ)
      → get_elem? t.threads i ≡ some outside
      → Step t (move t i (loaded t.service.used) t.service.used)
  exchanges :
      (i current : ℕ)
      → get_elem? t.threads i ≡ some (loaded current)
      → current < t.service.limit
      → t.service.used ≡ current
      → Step t (move t i holding (add64 current 1))
  retries :
      (i current : ℕ)
      → get_elem? t.threads i ≡ some (loaded current)
      → current < t.service.limit
      → Step t (move t i (loaded t.service.used) t.service.used)
  gives_up :
      (i current : ℕ)
      → get_elem? t.threads i ≡ some (loaded current)
      → t.service.limit ≤ current
      → Step t (move t i outside t.service.used)
  releases :
      (i : ℕ)
      → get_elem? t.threads i ≡ some holding
      → Step t (move t i outside (sub64 t.service.used 1))

pub data Reach (s : Threads) : Threads → Type 0 where
  here : Reach s s
  next : {t u : Threads} → Reach s t → Step t u → Reach s u

abbrev pub holds : Thread → ℕ
holds holding = 1
holds _ = 0

-- The counter is the number of threads that hold a task, and never passes the limit.
pub record IsExact (t : Threads) : Type 0 where
  pub small : t.service.limit < 2 ^ 64
  pub exact : t.service.used ≡ total holds t.threads
  pub fits : t.service.used ≤ t.service.limit

Step-IsExact : {t u : Threads} → Step t u → IsExact t → IsExact u
Step-IsExact {t} (loads i e) h = record {
  small = h.small;
  exact = omega (arith, h.exact, total-set holds t.threads i _ (loaded t.service.used) e);
  fits = h.fits;
}
Step-IsExact {t} (exchanges i current e lt same) h = record {
  small = h.small;
  exact = omega (arith, h.small, h.exact, total-set holds t.threads i _ holding e);
  fits = omega (arith, h.small);
}
Step-IsExact {t} (retries i current e lt) h = record {
  small = h.small;
  exact = omega (arith, h.exact, total-set holds t.threads i _ (loaded t.service.used) e);
  fits = h.fits;
}
Step-IsExact {t} (gives_up i current e full) h = record {
  small = h.small;
  exact = omega (arith, h.exact, total-set holds t.threads i _ outside e);
  fits = h.fits;
}
Step-IsExact {t} (releases i e) h = record {
  small = h.small;
  exact = omega (
    arith,
    h.small,
    h.exact,
    h.fits,
    total-set holds t.threads i _ outside e,
    le-total holds t.threads i _ e,
  );
  fits = omega (arith, h.small, h.exact, h.fits, le-total holds t.threads i _ e);
}

-- In every state that threads reach by atomic steps in any order, the service's counter is the
-- number of threads that hold a task and at most the limit, if this holds at the start.
pub Reach-IsExact : {s t : Threads} → Reach s t → IsExact s → IsExact t
Reach-IsExact here h = h
Reach-IsExact (next r st) h = Step-IsExact st (Reach-IsExact r h)

-- The assertion in `release`: a thread that holds a task never finds the counter at zero.
pub release_asserts :
    {s t : Threads} (i : ℕ)
    → IsExact s
    → Reach s t
    → get_elem? t.threads i ≡ some holding
    → 0 < t.service.used
release_asserts {t = t} i h r e =
    let x = Reach-IsExact r h in omega (arith, x.exact, le-total holds t.threads i _ e)
