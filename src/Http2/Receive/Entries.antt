-- ===== src/Http2/Receive/Entries.antt =====
-- Http2Receive.cpp: an entry under what header blocks do to it, and the entry of a new stream.
use hical.Base.{
  subst, ℕ, ◌≡◌, refl, ap, Bool, true, false, not, ◌||◌, Option, none, some, ◌==◌, if◌then◌else◌,
  is_some, arith, if_cases,
}
use hical.Http2.Options.{Http2Options, validation_error}
use hical.Http2.Budget.{
  Shared, Role, Lease, acquire_receive, acquire_protocol_stream, acquire_application_task,
}
use hical.Http2.Headers.Storage.{HeaderKind, is_trailers}
use hical.Http2.Headers.Seal.{Http2Headers}
use hical.Http2.Stream.{Stream, reserve, create, new_stream}
use hical.Http2.Receive.{Entry, Receive, new_entry}
use hical.Http2.Receive.Events.{no_pending, next_kind}
use hical.Http2.Receive.Table.{IsEntry}

-- A storage that is written to, or sealed, is the same block still.
pub pending-IsEntry :
    (e : Entry) (h : Http2Headers)
    → IsEntry e
    → is_some e.pending_headers ≡ true
    → IsEntry (record e { pending_headers = some h })
pending-IsEntry e h p some_pending = record {
  consistent = p.consistent;
  fits = p.fits;
  fresh = ground (arith, p.fresh);
  unsealed_is_empty = p.unsealed_is_empty;
  unsealed_waits = p.unsealed_waits;
  exact = p.exact;
}

pub no_pending-IsEntry : (e : Entry) → IsEntry e → IsEntry (no_pending e)
no_pending-IsEntry e p = record {
  consistent = p.consistent;
  fits = p.fits;
  fresh = refl;
  unsealed_is_empty = p.unsealed_is_empty;
  unsealed_waits = p.unsealed_waits;
  exact = p.exact;
}

-- A new block: of trailers if the message has begun.
pub begun-IsEntry :
    (r : Receive) (e : Entry) (h : Http2Headers)
    → IsEntry e
    → IsEntry (record e { pending_kind = next_kind r e; pending_headers = some h })
begun-IsEntry r e h p = record {
  consistent = p.consistent;
  fits = p.fits;
  fresh = ground arith;
  unsealed_is_empty = p.unsealed_is_empty;
  unsealed_waits = p.unsealed_waits;
  exact = p.exact;
}

pub named-IsEntry :
    (e : Entry) (kind : HeaderKind)
    → IsEntry e
    → is_some e.pending_headers ≡ false
    → IsEntry (record e { pending_kind = kind })
named-IsEntry e kind p no_block = record {
  consistent = p.consistent;
  fits = p.fits;
  fresh = ground arith;
  unsealed_is_empty = p.unsealed_is_empty;
  unsealed_waits = p.unsealed_waits;
  exact = p.exact;
}

pub trailers-IsEntry :
    (e : Entry) (h : Http2Headers)
    → IsEntry e
    → IsEntry (record e { stream = record e.stream { trailers = h }; pending_headers = none })
trailers-IsEntry e h p = record {
  consistent = ground (arith, p.consistent);
  fits = p.fits;
  fresh = refl;
  unsealed_is_empty = p.unsealed_is_empty;
  unsealed_waits = p.unsealed_waits;
  exact = p.exact;
}

pub forbidden-IsEntry :
    (e : Entry) (b : Bool) → IsEntry e → IsEntry (record e { body_forbidden = b })
forbidden-IsEntry e b p = record {
  consistent = p.consistent;
  fits = p.fits;
  fresh = p.fresh;
  unsealed_is_empty = p.unsealed_is_empty;
  unsealed_waits = p.unsealed_waits;
  exact = p.exact;
}

-- The head of a message: nothing was received before it.
pub initial-IsEntry :
    (e : Entry) (h : Http2Headers) (forbidden : Bool) (declared : Option ℕ)
    → IsEntry e
    → is_some e.pending_headers ≡ true
    → is_trailers e.pending_kind ≡ false
    → IsEntry (record e {
      body_forbidden = forbidden;
      expected_length = if forbidden then e.expected_length else declared;
      stream = record e.stream { initial_headers = h };
      pending_headers = none;
    })
initial-IsEntry e h forbidden declared p block first = record {
  consistent = ground (arith, p.consistent);
  fits = ground (arith, p.fits, p.fresh, p.unsealed_is_empty);
  fresh = refl;
  unsealed_is_empty = ground (arith, p.fresh, p.unsealed_is_empty);
  unsealed_waits = ground (arith, p.fresh, p.unsealed_waits);
  exact = ground (arith, p.fresh, p.unsealed_waits);
}

acquire_receive-amount : (s : Shared) → (acquire_receive s 0).1.amount ≡ 0
unfolding acquire_receive
acquire_receive-amount s = ground arith

acquire-held : (s : Shared) (l : Lease) → (not l.held) ≡ false → l.held ≡ true
acquire-held s l h = ground arith

pub record IsNew (x : Shared × Option Stream) : Type 0 where
  pub entry : (t : Stream) → x.1 ≡ some t → IsEntry (new_entry t false)

none-IsNew : (s : Shared) → IsNew (s, none)
none-IsNew s = record { entry = λ t h. absurd (ground arith) }

new_stream-IsEntry :
    (id : ℕ) (kind : HeaderKind) (i h : Http2Headers) (protocol application receive send : Lease)
    → protocol.held ≡ true
    → application.held ≡ true
    → receive.amount ≡ 0
    → IsEntry (new_entry (new_stream id kind i h protocol application receive send) false)
new_stream-IsEntry id kind i h protocol application receive send p a n = record {
  consistent = ground arith;
  fits = refl;
  fresh = refl;
  unsealed_is_empty = ground arith;
  unsealed_waits = ground arith;
  exact = refl;
}

some-IsNew : (s : Shared) (t : Stream) → IsEntry (new_entry t false) → IsNew (s, some t)
some-IsNew s t p = record {
  entry = λ u h. subst (λ x. IsEntry (new_entry x false)) (same_stream t u h) p;
}
  where
    same_stream : (t u : Stream) → some t ≡ some u → t ≡ u
    same_stream t u h = ap (λ o. elim o as (λ _. Stream) [ none ↦ t | some x ↦ x ]) h

pub reserve-IsNew :
    (role : Role) (s : Shared) (id : ℕ) (kind : HeaderKind) (peer_limit : ℕ) (o : Http2Options)
    → IsNew (reserve role s id kind peer_limit o)
unfolding reserve
reserve-IsNew role s id kind peer_limit o =
    let protocol = acquire_protocol_stream role s peer_limit in
    let application = acquire_application_task protocol.0 in
    let receive = acquire_receive application.0 0 in
    if_cases IsNew (not protocol.1.held) _ _ (λ p. none-IsNew _)
      (λ p.
        if_cases IsNew (not application.1.held) _ _ (λ a. none-IsNew _)
          (λ a. some-IsNew _ _ (
            new_stream-IsEntry id kind _ _ protocol.1 application.1 receive.1 _
              (acquire-held s protocol.1 p) (acquire-held s application.1 a)
              (acquire_receive-amount application.0))))

pub create-IsNew :
    (role : Role) (s : Shared) (id : ℕ) (kind : HeaderKind) (peer_limit : ℕ) (o : Http2Options)
    (x : Shared × Option Stream)
    → create role s id kind peer_limit o ≡ some x
    → IsNew x
unfolding create
create-IsNew role s id kind peer_limit o x h =
    by_guard (is_some (validation_error o) || id == 0 || is_trailers kind)
      (reserve role s id kind peer_limit o) x (reserve-IsNew role s id kind peer_limit o) h
  where
    by_guard :
        (b : Bool) (y x : Shared × Option Stream)
        → IsNew y
        → (if b then none else some y) ≡ some x
        → IsNew x
    by_guard true y x n h = absurd (ground arith)
    by_guard false y x n h =
        subst IsNew (ap (λ o. elim o as (λ _. Shared × Option Stream) [ none ↦ y | some z ↦ z ]) h)
          n
