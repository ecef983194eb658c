-- ===== src/Http2/Stream/Run.antt =====
-- Http2Stream.cpp: a stream under any sequence of calls.
use hical.Base.{
  ℕ, ◌≡◌, true, not, ◌&&◌, Option, some, List, [], ◌∷◌, if◌then◌else◌, Text, arith, inl, inr,
  Bool-cases,
}
use hical.Http2.Error.{NetworkError}
use hical.Http2.Budget.{Shared}
use hical.Http2.Stream.{
  Stream, start_application, finish_application, complete_body_once, fail, append_body,
  complete_body, publish_body, reset_stream, close_protocol, reserve_send,
}
use hical.Http2.Stream.Wait.{settle, end_wait, or_timeout}
use hical.Http2.Stream.Consistent.{
  IsConsistent, start_application-IsConsistent, finish_application-IsConsistent,
  complete_body-IsConsistent, publish_body-IsConsistent, append_body-IsConsistent,
  close_protocol-IsConsistent, reserve_send-IsConsistent, fail-IsConsistent,
  body_result-IsConsistent,
}

-- A call, with the clock at its time. `finishes` is the end of the guard that `starts` gave out.
pub data Call : Type 0 where
  starts finishes publishes : Call
  appends : ℕ → Text → Call
  completes closes : ℕ → Call
  fails : ℕ → Option NetworkError → Call
  resets : ℕ → ℕ → Call
  sends : ℕ → Call
  wakes : ℕ → ℕ → ℕ → Option NetworkError → Call

unfoldable pub step : Shared × Stream → Call → Shared × Stream
step (s, t) starts = (s, (start_application t).0)
step (s, t) finishes =
    if t.application_started && not t.application_finished then finish_application s t else (s, t)
step (s, t) publishes = (s, (publish_body t).0)
step (s, t) (appends now bytes) = let (s', t', _) = append_body now s t bytes in (s', t')
step (s, t) (completes now) = let (s', t', _) = complete_body now s t in (s', t')
step (s, t) (closes now) = close_protocol now s t
step (s, t) (fails now e) = let (s', t', _) = fail now s t e in (s', t')
step (s, t) (resets now code) = let (s', t', _) = reset_stream now s t code in (s', t')
step (s, t) (sends bytes) = let (s', t', _) = reserve_send s t bytes in (s', t')
step (s, t) (wakes now i deadline e) = let (s', t', _) = end_wait now s t i deadline e in (s', t')

unfoldable pub run : Shared × Stream → List Call → Shared × Stream
run w [] = w
run w (k ∷ ks) = run (step w k) ks

fail-completes :
    (now : ℕ) (s : Shared) (t : Stream) (e : Option NetworkError)
    → IsConsistent t
    → (fail now s t e).1.body_complete ≡ true
unfolding fail complete_body_once
fail-completes now s t e c = ground arith

pub settle-lem :
    (now : ℕ) (s : Shared) (t : Stream) (e : Option NetworkError)
    → IsConsistent t
    → let r = settle now s t e in IsConsistent r.1 × (r.1.body_complete ≡ true)
unfolding settle
settle-lem now s t e c = elim (Bool-cases t.body_complete) [
  | inl whole ↦ ground arith
  | inr waits ↦ ground (
    arith,
    fail-IsConsistent now s t (some (or_timeout e)),
    fail-completes now s t (some (or_timeout e)),
  )
]

end_wait-IsConsistent :
    (now : ℕ) (s : Shared) (t : Stream) (i deadline : ℕ) (e : Option NetworkError)
    → IsConsistent t
    → IsConsistent (end_wait now s t i deadline e).1
unfolding end_wait
end_wait-IsConsistent now s t i deadline e c =
    let r = settle now s t e in
    let (kept, whole) = settle-lem now s t e c in
    ground (arith, body_result-IsConsistent now r.0 r.1 deadline whole kept)

-- Every call keeps a stream consistent.
pub step-IsConsistent :
    (w : Shared × Stream) (k : Call) → IsConsistent w.1 → IsConsistent (step w k).1
unfolding step
step-IsConsistent (s, t) starts c = start_application-IsConsistent t c
step-IsConsistent (s, t) finishes c = ground (arith, finish_application-IsConsistent s t)
step-IsConsistent (s, t) publishes c = publish_body-IsConsistent t c
step-IsConsistent (s, t) (appends now bytes) c = append_body-IsConsistent now s t bytes c
step-IsConsistent (s, t) (completes now) c = complete_body-IsConsistent now s t c
step-IsConsistent (s, t) (closes now) c = close_protocol-IsConsistent now s t c
step-IsConsistent (s, t) (fails now e) c = fail-IsConsistent now s t e c
step-IsConsistent (s, t) (resets now code) c = unfold reset_stream in fail-IsConsistent now s t _ c
step-IsConsistent (s, t) (sends bytes) c = reserve_send-IsConsistent s t bytes c
step-IsConsistent (s, t) (wakes now i deadline e) c = end_wait-IsConsistent now s t i deadline e c

-- Any sequence of calls keeps a stream consistent: an error closes it, a closed stream has a final
-- body result, the task's slot is held until the task is finished, and each byte of the pending and
-- the mapped body is charged to the receive lease.
pub run-IsConsistent :
    (w : Shared × Stream) (ks : List Call) → IsConsistent w.1 → IsConsistent (run w ks).1
unfolding run
run-IsConsistent w [] c = c
run-IsConsistent w (k ∷ ks) c = run-IsConsistent (step w k) ks (step-IsConsistent w k c)
