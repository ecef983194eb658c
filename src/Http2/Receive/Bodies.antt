-- ===== src/Http2/Receive/Bodies.antt =====
-- Http2Receive.cpp: an entry under DATA and the end of its message.
use hical.Base.{ℕ, ◌≡◌, false, Text, length, arith}
use hical.Http2.Budget.{Shared, try_resize}
use hical.Http2.Stream.{fail, append_body, complete_body, complete_body_once, received_bytes}
use hical.Http2.Stream.Consistent.{append_body-IsConsistent, complete_body-IsConsistent}
use hical.Http2.Receive.{Entry}
use hical.Http2.Receive.Data.{exceeds, differs}
use hical.Http2.Receive.Table.{IsEntry}

pub append_body-IsEntry :
    (now : ℕ) (s : Shared) (e : Entry) (bytes : Text)
    → IsEntry e
    → exceeds e.expected_length (received_bytes e.stream) (length bytes) ≡ false
    → IsEntry (record e { stream = (append_body now s e.stream bytes).1 })
unfolding append_body fail complete_body_once try_resize
append_body-IsEntry now s e bytes p h =
    let c = append_body-IsConsistent now s e.stream bytes p.consistent in
    record {
      consistent = c;
      fits = ground arith;
      fresh = ground arith;
      unsealed_is_empty = ground arith;
      unsealed_waits = ground arith;
      exact = ground arith;
    }

pub complete_body-IsEntry :
    (now : ℕ) (s : Shared) (e : Entry)
    → IsEntry e
    → differs e.expected_length (received_bytes e.stream) ≡ false
    → IsEntry (record e { stream = (complete_body now s e.stream).1 })
unfolding complete_body fail complete_body_once
complete_body-IsEntry now s e p h = record {
  consistent = complete_body-IsConsistent now s e.stream p.consistent;
  fits = ground arith;
  fresh = ground arith;
  unsealed_is_empty = ground arith;
  unsealed_waits = ground arith;
  exact = ground arith;
}
