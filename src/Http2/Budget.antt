-- ===== src/Http2/Budget.antt =====
-- src/core/http2/Http2Budget.h: the quotas of one connection and of the whole service. A lease
-- shares its connection's state and that of the service, so both are passed to every operation.
pub mod Laws
pub mod World
pub mod Race
use hical.Base.{
  ℕ, zero, suc, ◌+◌, ◌-◌, ◌^◌, Bool, true, false, not, ◌&&◌, ◌||◌, Option, none, some, ltb, leb,
  ◌==◌, if◌then◌else◌, is_some, sub64, add64,
}
use hical.Http2.Options.{Http2Options, validation_error}

pub data Resource : Type 0 where
  protocol_stream application_task receive_bytes send_bytes : Resource

-- `std::array<size_t, hCount>`, one number for each resource.
pub record Counts : Type 0 where
  pub protocol_streams : ℕ
  pub application_tasks : ℕ
  pub receive : ℕ
  pub send : ℕ

abbrev pub at : Counts → Resource → ℕ
at c protocol_stream = c.protocol_streams
at c application_task = c.application_tasks
at c receive_bytes = c.receive
at c send_bytes = c.send

abbrev pub put : Counts → Resource → ℕ → Counts
put c protocol_stream n = record c { protocol_streams = n }
put c application_task n = record c { application_tasks = n }
put c receive_bytes n = record c { receive = n }
put c send_bytes n = record c { send = n }

abbrev pub is_application_task : Resource → Bool
is_application_task application_task = true
is_application_task _ = false

-- `resource_ < Resource::hReceiveBytes`
abbrev pub is_slot : Resource → Bool
is_slot protocol_stream = true
is_slot application_task = true
is_slot _ = false

pub record Service : Type 0 where
  pub limit : ℕ
  pub used : ℕ

-- The constructor of `Http2ServiceBudget`; `none` is the exception.
pub new_service : ℕ → Option Service
new_service max_tasks =
    if max_tasks == 0 then none else some (record { limit = max_tasks; used = 0 })

-- One thread's run of the loop, with no other between its load and its exchange; `Race` has the rest.
unfoldable pub acquire_service : Service → Service × Bool
acquire_service s =
    if ltb s.used s.limit then (record s { used = add64 s.used 1 }, true) else (s, false)

unfoldable pub release_service : Service → Service
release_service s = record s { used = sub64 s.used 1 }

pub record State : Type 0 where
  pub used : Counts
  pub limits : Counts
  pub stream_receive_limit : ℕ
  pub has_service : Bool

-- What a lease can reach: the state of its connection, and that of the service.
pub record Shared : Type 0 where
  pub state : State
  pub service : Service

pub record Lease : Type 0 where
  pub held : Bool
  pub resource : Resource
  pub amount : ℕ
  pub limit : ℕ

abbrev pub no_lease : Lease
no_lease = record { held = false; resource = protocol_stream; amount = 0; limit = 0 }

-- `used[index] = n`
abbrev pub set_used : State → Resource → ℕ → State
set_used st r n = record st { used = put st.used r n }

-- The move constructor: the new lease, and what is left of the source.
unfoldable pub take_lease : Lease → Lease × Lease
take_lease l = (l, record l { held = false; amount = 0 })

unfoldable pub try_resize : State → Lease → ℕ → State × Lease × Bool
try_resize st l bytes =
    let used = at st.used l.resource in
    if not l.held || is_slot l.resource || ltb l.limit bytes
    then (st, l, false)
    else if ltb l.amount bytes
    then if ltb (sub64 (at st.limits l.resource) used) (bytes - l.amount) then (st, l, false) else (
      set_used st l.resource (add64 used (bytes - l.amount)),
      record l { amount = bytes },
      true,
    )
    else (set_used st l.resource (sub64 used (l.amount - bytes)), record l { amount = bytes }, true)

unfoldable pub reset : Shared → Lease → Shared × Lease
unfolding release_service
reset s l =
    let st = set_used s.state l.resource (sub64 (at s.state.used l.resource) l.amount) in
    if l.held
    then (
      record {
        state = st;
        service =
            if is_application_task l.resource && st.has_service
            then release_service s.service
            else s.service;
      },
      record l { held = false; amount = 0 },
    )
    else (s, l)

-- The move assignment from another object.
unfoldable pub assign : Shared → Lease → Lease → Shared × Lease × Lease
unfolding take_lease
assign s l other =
    let (s', _) = reset s l in let (mine, left) = take_lease other in (s', mine, left)

unfoldable pub acquire : Shared → Resource → ℕ → ℕ → Shared × Lease
unfolding acquire_service
acquire s r amount limit =
    let st = s.state in
    let granted = set_used st r (add64 (at st.used r) amount) in
    let lease : Lease = record { held = true; resource = r; amount = amount; limit = limit } in
    if ltb limit amount || ltb (sub64 (at st.limits r) (at st.used r)) amount
    then (s, no_lease)
    else if is_application_task r && st.has_service
    then (let (service, ok) = acquire_service s.service in
        if ok then (record { state = granted; service = service }, lease) else (s, no_lease))
    else (record s { state = granted }, lease)

pub data Role : Type 0 where
  client server : Role

new_state : Http2Options → Bool → ℕ → ℕ → State
new_state o has_service receive_limit stream_limit = record {
  used = record { protocol_streams = 0; application_tasks = 0; receive = 0; send = 0 };
  limits = record {
    protocol_streams = o.max_concurrent_streams;
    application_tasks = o.max_application_tasks;
    receive = receive_limit;
    send = o.max_connection_send_bytes;
  };
  stream_receive_limit = stream_limit;
  has_service = has_service;
}

role_state : Role → Http2Options → Bool → Option State
unfolding new_state
role_state client o has_service =
    some (new_state o has_service o.max_client_connection_receive_bytes o.max_response_bytes)
role_state server o has_service =
    if has_service
    then some (new_state o has_service o.max_connection_receive_bytes o.max_body_bytes)
    else none

-- The constructor of `Http2Budget`, with whether a service is given; `none` is the exception.
unfoldable pub new_budget : Role → Http2Options → Bool → Option State
unfolding validation_error role_state
new_budget role o has_service =
    if is_some (validation_error o) then none else role_state role o has_service

unfoldable pub acquire_protocol_stream : Role → Shared → ℕ → Shared × Lease
unfolding acquire
acquire_protocol_stream client s peer_limit =
    if leb peer_limit s.state.used.protocol_streams
    then (s, no_lease)
    else acquire s protocol_stream 1 1
acquire_protocol_stream server s peer_limit = acquire s protocol_stream 1 1

unfoldable pub acquire_application_task : Shared → Shared × Lease
unfolding acquire
acquire_application_task s = acquire s application_task 1 1

unfoldable pub acquire_receive : Shared → ℕ → Shared × Lease
unfolding acquire
acquire_receive s bytes = acquire s receive_bytes bytes s.state.stream_receive_limit

unfoldable pub acquire_send : Shared → ℕ → Shared × Lease
unfolding acquire
acquire_send s bytes = acquire s send_bytes bytes s.state.limits.send
