-- ===== src/Http2/Stream/Wait.antt =====
-- Http2Stream.cpp, `waitBody`: a coroutine in two parts, before and after it sleeps on its timer.
use hical.Base.{
  ℕ, suc, zero, true, false, not, Option, none, some, List, [], ◌∷◌, ◌++◌, leb, if◌then◌else◌,
  length,
}
use hical.Http2.Error.{NetworkError, timed_out}
use hical.Http2.Budget.{Shared}
use hical.Http2.Stream.{Stream, Waiter, Outcome, fail}

abbrev pub timeout : NetworkError
timeout = record { code = timed_out; http2 = none }

-- `bodyResult`: a body that came after the waiter's deadline fails the stream, if it is open.
unfoldable pub body_result : ℕ → Shared → Stream → ℕ → Outcome
body_result now s t deadline =
    let (s', t', e) = fail now s t (some timeout) in
    if t.body_failed
    then (s, t, t.error)
    else if leb t.body_completed_at deadline
    then (s, t, none)
    else if not t.protocol.held
    then (s, t, some timeout)
    else (s', record t' { body_failed = true }, t'.error)

-- What the caller sees of the first part: a result, or the place of its timer.
pub data Waiting : Type 0 where
  done : Outcome → Waiting
  sleeps : Stream → ℕ → Waiting

unfoldable pub begin_wait : ℕ → Shared → Stream → ℕ → Waiting
begin_wait now s t deadline =
    if t.body_complete
    then done (body_result now s t deadline)
    else sleeps
        (record t {
          body_waiters = t.body_waiters ++ record { deadline = deadline; cancelled = false } ∷ [];
        })
        (length t.body_waiters)

abbrev pub or_timeout : Option NetworkError → NetworkError
or_timeout none = timeout
or_timeout (some e) = e

unfoldable pub remove_at : ℕ → List Waiter → List Waiter
remove_at i [] = []
remove_at zero (w ∷ ws) = ws
remove_at (suc i) (w ∷ ws) = w ∷ remove_at i ws

-- A waiter that wakes before the body is complete fails the stream.
unfoldable pub settle : ℕ → Shared → Stream → Option NetworkError → Shared × Stream
settle now s t error =
    let (s', t', _) = fail now s t (some (or_timeout error)) in
    if t.body_complete then (s, t) else (s', t')

-- The second part, after the timer fired (`none`) or its wait was stopped by an error; `i` is the
-- place that the timer has in the list by then. The registration ends with the coroutine.
unfoldable pub end_wait : ℕ → Shared → Stream → ℕ → ℕ → Option NetworkError → Outcome
unfolding remove_at
end_wait now s t i deadline error =
    let (s', t') = settle now s t error in
    let (s'', t'', result) = body_result now s' t' deadline in
    (s'', record t'' { body_waiters = remove_at i t''.body_waiters }, result)
