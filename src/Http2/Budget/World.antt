-- ===== src/Http2/Budget/World.antt =====
-- Http2Budget.h: every connection of a service with all its leases, under any sequence of calls.
pub mod Conserved
use hical.Base.{
  ℕ, zero, suc, ◌+◌, ◌-◌, ◌^◌, ◌≤◌, ◌<◌, ◌≡◌, refl, Bool, true, false, ◌&&◌, ◌||◌, arith,
  if◌then◌else◌, Option, none, some, ◌==◌, List, [], ◌∷◌, ◌++◌, length, get_elem?, set, total, All,
}
use hical.Http2.Budget.{
  Resource, protocol_stream, application_task, receive_bytes, send_bytes, at, Service, State,
  Shared, Lease, no_lease, acquire, try_resize, reset, assign, Role, acquire_protocol_stream,
  acquire_application_task, acquire_receive, acquire_send,
}
use hical.Http2.Budget.Laws.{share, tasks, shared_of, Covers, Exchange}

pub record Connection : Type 0 where
  pub role : Role
  pub state : State
  -- Every lease object that was made from the connection, empty ones too.
  pub leases : List Lease

pub record World : Type 0 where
  pub service : Service
  pub connections : List Connection

-- A call on one connection. Leases are named by their place in `leases`.
pub data Call : Type 0 where
  opens_stream : ℕ → Call
  starts_task : Call
  receives sends : ℕ → Call
  resizes : ℕ → ℕ → Call
  resets : ℕ → Call
  assigns : ℕ → ℕ → Call

abbrev after_acquire : Connection → Shared × Lease → Service × Connection
after_acquire c (s, l) = (s.service, record c { state = s.state; leases = l ∷ c.leases })

abbrev resize_at : Service → Connection → ℕ → ℕ → Option Lease → Service × Connection
resize_at v c i bytes none = (v, c)
resize_at v c i bytes (some l) =
    let (st, l', _) = try_resize c.state l bytes in
    (v, record c { state = st; leases = set c.leases i l' })

abbrev reset_at : Service → Connection → ℕ → Option Lease → Service × Connection
reset_at v c i none = (v, c)
reset_at v c i (some l) =
    let (s, l') = reset (shared_of v c.state) l in
    (s.service, record c { state = s.state; leases = set c.leases i l' })

abbrev assign_at : Service → Connection → ℕ → ℕ → Option Lease → Option Lease → Service × Connection
assign_at v c i j none other = (v, c)
assign_at v c i j (some l) none = (v, c)
assign_at v c i j (some l) (some other) =
    if i == j
    then (v, c)
    else (let (s, mine, left) = assign (shared_of v c.state) l other in
        (s.service, record c { state = s.state; leases = set (set c.leases i mine) j left }))

unfoldable pub call : Service → Connection → Call → Service × Connection
call v c (opens_stream peer_limit) =
    after_acquire c (acquire_protocol_stream c.role (shared_of v c.state) peer_limit)
call v c starts_task = after_acquire c (acquire_application_task (shared_of v c.state))
call v c (receives bytes) = after_acquire c (acquire_receive (shared_of v c.state) bytes)
call v c (sends bytes) = after_acquire c (acquire_send (shared_of v c.state) bytes)
call v c (resizes i bytes) = resize_at v c i bytes (get_elem? c.leases i)
call v c (resets i) = reset_at v c i (get_elem? c.leases i)
call v c (assigns i j) = assign_at v c i j (get_elem? c.leases i) (get_elem? c.leases j)

abbrev call_at : World → ℕ → Call → Option Connection → World
call_at w i k none = w
call_at w i k (some c) =
    let (v, c') = call w.service c k in record { service = v; connections = set w.connections i c' }

unfoldable pub step : World → ℕ × Call → World
step w (i, k) = call_at w i k (get_elem? w.connections i)

unfoldable pub run : World → List (ℕ × Call) → World
run w [] = w
run w (k ∷ ks) = run (step w k) ks

-- Each count is what the connection's leases hold, and lies within its limit.
pub record IsAccounted (c : Connection) : Type 0 where
  pub bounded : (r : Resource) → at c.state.limits r < 2 ^ 64
  pub fits : (r : Resource) → at c.state.used r ≤ at c.state.limits r
  pub counted : (r : Resource) → at c.state.used r ≡ total (share r) c.leases

-- The service's tasks that a connection's leases hold.
abbrev pub served : Connection → ℕ
served c = total (tasks c.state.has_service) c.leases

pub record IsConserved (w : World) : Type 0 where
  pub bounded : w.service.limit < 2 ^ 64
  pub fits : w.service.used ≤ w.service.limit
  pub counted : w.service.used ≡ total served w.connections
  pub accounted : All IsAccounted w.connections
