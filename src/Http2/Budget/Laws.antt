-- ===== src/Http2/Budget/Laws.antt =====
-- Http2Budget.h: the operations of a lease, and the counts that it stands for.
use hical.Base.{
  subst, sym, ap, ltb, ◌↔◌, leb, inl, inr, Bool-cases, ℕ, ◌+◌, ◌^◌, ◌≤◌, ◌<◌, ◌≡◌, refl, Bool, true,
  false, ◌&&◌, arith, if◌then◌else◌,
}
use hical.Http2.Budget.{
  Counts, Resource, protocol_stream, application_task, receive_bytes, send_bytes, at, Service,
  State, Shared, Lease, no_lease, acquire, acquire_protocol_stream, acquire_application_task,
  acquire_receive, acquire_send, Role, client, server, try_resize, reset, is_application_task,
}

abbrev pub same_resource : Resource → Resource → Bool
same_resource protocol_stream protocol_stream = true
same_resource application_task application_task = true
same_resource receive_bytes receive_bytes = true
same_resource send_bytes send_bytes = true
same_resource _ _ = false

-- What a lease holds of a resource.
abbrev pub share : Resource → Lease → ℕ
share r l = if l.held && same_resource r l.resource then l.amount else 0

-- What it holds of the service's tasks: one slot, whatever its amount.
abbrev pub tasks : Bool → Lease → ℕ
tasks has_service l = if l.held && is_application_task l.resource && has_service then 1 else 0

-- The counts stay within their limits, and cover what the lease `l` holds.
pub record Covers (s : Shared) (l : Lease) : Type 0 where
  pub bounded : (r : Resource) → at s.state.limits r < 2 ^ 64
  pub fits : (r : Resource) → at s.state.used r ≤ at s.state.limits r
  pub covers : (r : Resource) → share r l ≤ at s.state.used r
  pub service_bounded : s.service.limit < 2 ^ 64
  pub service_fits : s.service.used ≤ s.service.limit
  pub service_covers : tasks s.state.has_service l ≤ s.service.used

-- From `s` to `s'` the counts change by exactly what `l'` holds more or less than `l`, within limits.
pub record Exchange (s s' : Shared) (l l' : Lease) : Type 0 where
  pub counted : (r : Resource) → at s'.state.used r + share r l ≡ at s.state.used r + share r l'
  pub within : (r : Resource) → at s'.state.used r ≤ at s.state.limits r
  pub same_limits : s'.state.limits ≡ s.state.limits
  pub same_stream_limit : s'.state.stream_receive_limit ≡ s.state.stream_receive_limit
  pub same_service : s'.state.has_service ≡ s.state.has_service
  pub served :
      s'.service.used + tasks s.state.has_service l ≡ s.service.used + tasks s.state.has_service l'
  pub service_within : s'.service.used ≤ s.service.limit
  pub same_service_limit : s'.service.limit ≡ s.service.limit

abbrev pub shared_of : Service → State → Shared
shared_of service st = record { state = st; service = service }

pub try_resize-Exchange :
    (s : Shared) (l : Lease) (bytes : ℕ)
    → Covers s l
    → let r = try_resize s.state l bytes in Exchange s (record s { state = r.0 }) l r.1
unfolding try_resize
try_resize-Exchange s l bytes c = record {
  counted = λ r. ground (arith, c.bounded l.resource, c.fits l.resource, c.covers l.resource);
  within =
      λ r. ground (arith, c.bounded l.resource, c.fits l.resource, c.covers l.resource, c.fits r);
  same_limits = ground arith;
  same_stream_limit = ground arith;
  same_service = ground arith;
  served = ground arith;
  service_within = c.service_fits;
  same_service_limit = refl;
}

pub reset-Exchange :
    (s : Shared) (l : Lease) → Covers s l → let r = reset s l in Exchange s r.0 l r.1
unfolding reset
reset-Exchange s l c = record {
  counted = λ r. ground (arith, c.bounded l.resource, c.fits l.resource, c.covers l.resource);
  within =
      λ r. ground (arith, c.bounded l.resource, c.fits l.resource, c.covers l.resource, c.fits r);
  same_limits = ground arith;
  same_stream_limit = ground arith;
  same_service = ground arith;
  served = ground (arith, c.service_bounded, c.service_fits, c.service_covers);
  service_within = ground (arith, c.service_bounded, c.service_fits, c.service_covers);
  same_service_limit = ground arith;
}

pub acquire-Exchange :
    (s : Shared) (r : Resource) (amount limit : ℕ)
    → Covers s no_lease
    → let a = acquire s r amount limit in Exchange s a.0 no_lease a.1
unfolding acquire
acquire-Exchange s r amount limit c = record {
  counted = λ q. ground (arith, c.bounded r, c.fits r, c.bounded q, c.fits q);
  within = λ q. ground (arith, c.bounded r, c.fits r, c.fits q);
  same_limits = ground arith;
  same_stream_limit = ground arith;
  same_service = ground arith;
  served = ground (arith, c.service_bounded, c.service_fits);
  service_within = ground (arith, c.service_bounded, c.service_fits);
  same_service_limit = ground arith;
}

Exchange-refl : (s : Shared) (l : Lease) → Covers s l → Exchange s s l l
Exchange-refl s l c = record {
  counted = λ r. refl;
  within = c.fits;
  same_limits = refl;
  same_stream_limit = refl;
  same_service = refl;
  served = refl;
  service_within = c.service_fits;
  same_service_limit = refl;
}

pub acquire_protocol_stream-Exchange :
    (role : Role) (s : Shared) (peer_limit : ℕ)
    → Covers s no_lease
    → let a = acquire_protocol_stream role s peer_limit in Exchange s a.0 no_lease a.1
unfolding acquire_protocol_stream
acquire_protocol_stream-Exchange client s peer_limit c =
    elim (Bool-cases (leb peer_limit s.state.used.protocol_streams)) [
      | inl e ↦ rw e (Exchange-refl s no_lease c)
      | inr e ↦ rw e (acquire-Exchange s protocol_stream 1 1 c)
    ]
acquire_protocol_stream-Exchange server s peer_limit c = acquire-Exchange s protocol_stream 1 1 c

pub acquire_application_task-Exchange :
    (s : Shared)
    → Covers s no_lease
    → let a = acquire_application_task s in Exchange s a.0 no_lease a.1
unfolding acquire_application_task
acquire_application_task-Exchange s c = acquire-Exchange s application_task 1 1 c

pub acquire_receive-Exchange :
    (s : Shared) (bytes : ℕ)
    → Covers s no_lease
    → let a = acquire_receive s bytes in Exchange s a.0 no_lease a.1
unfolding acquire_receive
acquire_receive-Exchange s bytes c =
    acquire-Exchange s receive_bytes bytes s.state.stream_receive_limit c

pub acquire_send-Exchange :
    (s : Shared) (bytes : ℕ)
    → Covers s no_lease
    → let a = acquire_send s bytes in Exchange s a.0 no_lease a.1
unfolding acquire_send
acquire_send-Exchange s bytes c = acquire-Exchange s send_bytes bytes s.state.limits.send c

-- After `reset` a lease holds nothing.
pub reset-held : (s : Shared) (l : Lease) → (reset s l).1.held ≡ false
unfolding reset
reset-held s l = ground arith

pub share_of_empty : (r : Resource) (l : Lease) → l.held ≡ false → share r l ≡ 0
share_of_empty r l e = ground arith

pub tasks_of_empty : (has_service : Bool) (l : Lease) → l.held ≡ false → tasks has_service l ≡ 0
tasks_of_empty has_service l e = ground arith

-- What an exchange leaves covers the new lease, so that operations chain.
pub Exchange-Covers :
    {s s' : Shared} {l l' : Lease} → Covers s l → Exchange s s' l l' → Covers s' l'
Exchange-Covers {s} {s'} {l} {l'} c x = record {
  bounded = λ r. subst (λ (k : Counts). at k r < 2 ^ 64) (sym x.same_limits) (c.bounded r);
  fits = λ r. subst (λ (k : Counts). at s'.state.used r ≤ at k r) (sym x.same_limits) (x.within r);
  covers = λ r. omega (arith, x.counted r, c.covers r);
  service_bounded = omega (arith, c.service_bounded, x.same_service_limit);
  service_fits = omega (arith, x.service_within, x.same_service_limit);
  service_covers =
      omega (arith, x.served, c.service_covers, ap (λ (b : Bool). tasks b l') x.same_service);
}

-- A refused request changes nothing.
pub acquire_refused :
    (s : Shared) (r : Resource) (amount limit : ℕ)
    → (acquire s r amount limit).1.held ≡ false
    → (acquire s r amount limit).0 ≡ s
unfolding acquire
acquire_refused s r amount limit e = ground arith

-- Where the counts are within limits below 2 ^ 64, a request is granted exactly when it fits the
-- limit of one lease and what the connection has left, and, for a task under a service, the
-- service's counter is below its limit.
pub acquire_iff :
    (s : Shared) (r : Resource) (amount limit : ℕ)
    → Covers s no_lease
    → ((acquire s r amount limit).1.held ≡ true) ↔ (
        (amount ≤ limit)
        × (at s.state.used r + amount ≤ at s.state.limits r)
        × (if is_application_task r && s.state.has_service
            then ltb s.service.used s.service.limit
            else true)
          ≡ true)
unfolding acquire
acquire_iff s r amount limit c = ground (arith, c.bounded r, c.fits r)
