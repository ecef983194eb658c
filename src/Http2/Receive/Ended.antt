-- ===== src/Http2/Receive/Ended.antt =====
-- Http2Receive.cpp: the streams that leave the table.
use hical.Base.{ℕ, ◌≡◌, false, List, [], ◌∷◌, Option, some, All, arith}
use hical.Http2.Error.{NetworkError, stream_failure, http2_stream_error, stream_closed}
use hical.Http2.Budget.{Shared, reset}
use hical.Http2.Stream.{
  Stream, fail, reset_stream, close_protocol, end_protocol, finish_application, complete_body_once,
}
use hical.Http2.Stream.Consistent.{IsConsistent, close_protocol-IsConsistent, reset-held}
use hical.Http2.Receive.{Entry, fail_all}
use hical.Http2.Receive.Table.{IsEntry, IsEnded}

pub fail-IsEnded :
    (now : ℕ) (s : Shared) (t : Stream) (e : Option NetworkError)
    → IsConsistent t
    → IsEnded (fail now s t e).1
unfolding fail complete_body_once
fail-IsEnded now s t e c =
    ground (arith, reset-held s t.protocol, reset-held (reset s t.protocol).0 t.application)

pub reset_stream-IsEnded :
    (now : ℕ) (s : Shared) (t : Stream) (number : ℕ)
    → IsConsistent t
    → IsEnded (reset_stream now s t number).1
unfolding reset_stream
reset_stream-IsEnded now s t number c =
    fail-IsEnded now s t (some (stream_failure http2_stream_error number t.id)) c

end_protocol_closes : (s : Shared) (t : Stream) → (end_protocol s t).1.protocol.held ≡ false
unfolding end_protocol finish_application
end_protocol_closes s t = ground (arith, reset-held s t.protocol)

pub close_protocol-IsEnded :
    (now : ℕ) (s : Shared) (t : Stream) → IsConsistent t → IsEnded (close_protocol now s t).1
unfolding close_protocol
close_protocol-IsEnded now s t c = ground (
  arith,
  end_protocol_closes s t,
  (close_protocol-IsConsistent now s t c).complete_when_closed,
  fail-IsEnded now s t (some (stream_failure http2_stream_error stream_closed t.id)) c,
)

pub fail_all-IsEnded :
    (now : ℕ) (error : Option NetworkError) (s : Shared) (es : List Entry)
    → All IsEntry es
    → All IsEnded (fail_all now error s es).1
unfolding fail_all
fail_all-IsEnded now error s [] a = tt
fail_all-IsEnded now error s (e ∷ es) a = (
  fail-IsEnded now s e.stream error a.0.consistent,
  fail_all-IsEnded now error (fail now s e.stream error).0 es a.1,
)
