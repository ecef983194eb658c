-- ===== src/Http2/Stream/Results.antt =====
-- Http2Stream.cpp: errors, quotas, waiters and the published body of a stream.
use hical.Base.{
  ℕ, ◌≤◌, ◌≡◌, refl, ap, sym, subst, Bool, true, false, Option, none, some, List, [], ◌∷◌, arith,
  inl, inr, Bool-cases, ◌↔◌,
}
use hical.Http2.Options.{Http2Options}
use hical.Http2.Error.{NetworkError}
use hical.Http2.Budget.{
  Shared, Role, Lease, Resource, at, protocol_stream, application_task, reset, no_lease,
  acquire_protocol_stream, acquire_application_task,
}
use hical.Http2.Budget.Laws.{
  Covers, Exchange, acquire_protocol_stream-Exchange, reset-Exchange, reset-held, share_of_empty,
  tasks_of_empty, tasks, Exchange-Covers, acquire_refused,
}
use hical.Http2.Headers.Storage.{HeaderKind}
use hical.Http2.Stream.{
  Stream, start_application, finish_application, complete_body_once, end_protocol, fail,
  append_body, complete_body, publish_body, reset_stream, close_protocol, reserve_send, body,
  reserve,
}
use hical.Http2.Stream.Wait.{body_result, settle, end_wait, or_timeout, timeout}
use hical.Http2.Stream.Consistent.{IsConsistent}
use hical.Http2.Stream.Run.{
  Call, starts, finishes, publishes, appends, completes, closes, fails, resets, sends, wakes, step,
  run, step-IsConsistent, settle-lem,
}

module _ (s : Shared) (t : Stream) (first : NetworkError) (c : IsConsistent t)
    (failed : t.error ≡ some first) where
  fail-error : (now : ℕ) (e : Option NetworkError) → (fail now s t e).1.error ≡ some first
  unfolding fail
  fail-error now e = ground arith

  body_result-error : (now deadline : ℕ) → (body_result now s t deadline).1.error ≡ some first
  unfolding body_result
  body_result-error now deadline = ground arith

  settle-error : (now : ℕ) (e : Option NetworkError) → (settle now s t e).1.error ≡ some first
  unfolding settle
  settle-error now e = ground (arith, fail-error now (some (or_timeout e)))

end_wait-error :
    (s : Shared) (t : Stream) (first : NetworkError) (now i deadline : ℕ) (e : Option NetworkError)
    → IsConsistent t
    → t.error ≡ some first
    → (end_wait now s t i deadline e).1.error ≡ some first
unfolding end_wait
end_wait-error s t first now i deadline e c failed =
    let r = settle now s t e in
    body_result-error r.0 r.1 first (settle-lem now s t e c).0
      (settle-error s t first c failed now e) now deadline

-- No call replaces or clears the first error of a stream.
pub step-error :
    (w : Shared × Stream) (k : Call) (first : NetworkError)
    → IsConsistent w.1
    → w.1.error ≡ some first
    → (step w k).1.error ≡ some first
unfolding step
step-error (s, t) starts first c e = unfold start_application in ground arith
step-error (s, t) finishes first c e = unfold finish_application in ground arith
step-error (s, t) publishes first c e = unfold publish_body in ground arith
step-error (s, t) (appends now bytes) first c e = unfold append_body in ground arith
step-error (s, t) (completes now) first c e =
    unfold complete_body complete_body_once in ground (arith, fail-error s t first c e now)
step-error (s, t) (closes now) first c e =
    unfold close_protocol end_protocol finish_application in
    ground (arith, fail-error s t first c e now)
step-error (s, t) (fails now e') first c e = fail-error s t first c e now e'
step-error (s, t) (resets now code) first c e =
    unfold reset_stream in fail-error s t first c e now _
step-error (s, t) (sends bytes) first c e = unfold reserve_send in ground arith
step-error (s, t) (wakes now i deadline e') first c e =
    end_wait-error s t first now i deadline e' c e

-- No sequence of calls on a consistent stream replaces or clears its first error.
pub run-error :
    (w : Shared × Stream) (ks : List Call) (first : NetworkError)
    → IsConsistent w.1
    → w.1.error ≡ some first
    → (run w ks).1.error ≡ some first
unfolding run
run-error w [] first c e = e
run-error w (k ∷ ks) first c e =
    run-error (step w k) ks first (step-IsConsistent w k c) (step-error w k first c e)

-- An open stream that fails after its task was started loses its protocol slot; the task's lease,
-- the connection's count of tasks and the service's counter stay as they were.
pub fail_keeps_task :
    (now : ℕ) (s : Shared) (t : Stream) (e : Option NetworkError)
    → t.protocol.held ≡ true
    → t.protocol.resource ≡ protocol_stream
    → t.application_started ≡ true
    → let r = fail now s t e in
      (r.1.protocol.held ≡ false)
      × (r.1.application ≡ t.application)
      × (r.0.state.used.application_tasks ≡ s.state.used.application_tasks)
      × (r.0.service ≡ s.service)
unfolding fail complete_body_once reset
fail_keeps_task now s t e held slot started =
    (ground arith, ground arith, ground arith, ground arith)

fail_sets_error :
    (now : ℕ) (s : Shared) (t : Stream) (e : NetworkError)
    → t.protocol.held ≡ true
    → (fail now s t (some e)).1.error ≡ some e
unfolding fail complete_body_once
fail_sets_error now s t e held = ground arith

-- On a consistent stream whose body is complete, a waiter gets no error exactly when the body did
-- not fail and was complete by the waiter's deadline.
pub body_result_iff :
    (now : ℕ) (s : Shared) (t : Stream) (deadline : ℕ)
    → IsConsistent t
    → t.body_complete ≡ true
    → ((body_result now s t deadline).2 ≡ none)
      ↔ ((t.body_failed ≡ false) × (t.body_completed_at ≤ deadline))
unfolding body_result
body_result_iff now s t deadline c whole = ground (arith, fail_sets_error now s t timeout)

-- On a consistent stream without an error, `body` shows the same bytes before and after
-- `publish_body`.
pub body-publish_body :
    (t : Stream) → IsConsistent t → t.error ≡ none → body (publish_body t).0 ≡ body t
unfolding body publish_body
body-publish_body t c ok = ground arith

-- The counts of two moments are the same.
pub record SameCounts (s s' : Shared) : Type 0 where
  pub counts : (q : Resource) → at s'.state.used q ≡ at s.state.used q
  pub service : s'.service.used ≡ s.service.used

Exchange-SameCounts :
    (s s' : Shared) (l l' : Lease)
    → l.held ≡ false
    → l'.held ≡ false
    → Exchange s s' l l'
    → SameCounts s s'
Exchange-SameCounts s s' l l' e e' x = record {
  counts = λ q. omega (arith, x.counted q, share_of_empty q l e, share_of_empty q l' e');
  service = omega (
    arith,
    x.served,
    tasks_of_empty s.state.has_service l e,
    tasks_of_empty s.state.has_service l' e',
  );
}

-- Taking a slot and giving it back restores the counts.
undone :
    {s s1 s2 : Shared} {l l' : Lease}
    → Exchange s s1 no_lease l
    → Exchange s1 s2 l l'
    → l'.held ≡ false
    → SameCounts s s2
undone {s} {s1} {s2} {l} {l'} x y e = record {
  counts = λ q. omega (arith, x.counted q, y.counted q, share_of_empty q l' e);
  service = omega (
    arith,
    x.served,
    y.served,
    tasks_of_empty s1.state.has_service l' e,
    ap (λ (b : Bool). tasks b l) x.same_service,
  );
}

acquire_application_task_refused :
    (s : Shared) → (acquire_application_task s).1.held ≡ false → (acquire_application_task s).0 ≡ s
unfolding acquire_application_task
acquire_application_task_refused s e = acquire_refused s application_task 1 1 e

module _ (role : Role) (s : Shared) (peer_limit : ℕ) (c : Covers s no_lease) where
  abbrev slot : Shared × Lease
  slot = acquire_protocol_stream role s peer_limit

  abbrev task : Shared × Lease
  task = acquire_application_task slot.0

  slot-Exchange : Exchange s slot.0 no_lease slot.1
  slot-Exchange = acquire_protocol_stream-Exchange role s peer_limit c

  task_refused : task.1.held ≡ false → SameCounts s (reset task.0 slot.1).0
  task_refused e =
      subst (λ w. SameCounts s (reset w slot.1).0) (sym (acquire_application_task_refused slot.0 e))
        (undone slot-Exchange (reset-Exchange slot.0 slot.1 (Exchange-Covers c slot-Exchange))
          (reset-held slot.0 slot.1))

  slot_refused : slot.1.held ≡ false → SameCounts s slot.0
  slot_refused e = Exchange-SameCounts s slot.0 no_lease slot.1 refl e slot-Exchange

-- Where the counts are within limits below 2 ^ 64, a stream that is refused leaves every count of
-- the connection and the service's counter as they were.
pub reserve_refused :
    (role : Role) (s : Shared) (id : ℕ) (kind : HeaderKind) (peer_limit : ℕ) (o : Http2Options)
    → Covers s no_lease
    → (reserve role s id kind peer_limit o).1 ≡ none
    → SameCounts s (reserve role s id kind peer_limit o).0
unfolding reserve
reserve_refused role s id kind peer_limit o c e =
    elim (Bool-cases (slot role s peer_limit c).1.held) [
      | inr refused ↦ rw refused (slot_refused role s peer_limit c refused)
      | inl held ↦ elim (Bool-cases (task role s peer_limit c).1.held) [
        | inr refused ↦ rw (held, refused) (task_refused role s peer_limit c refused)
        | inl granted ↦ absurd (ground arith)
      ]
    ]
