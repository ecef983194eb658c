-- ===== src/Http2/Receive/Answers.antt =====
-- Http2Receive.cpp: the table under a rejection, the end of the connection and the calls of the
-- codec.
use hical.Base.{
  option_holds, if_holds, ℕ, ◌≡◌, refl, Bool, true, false, [], ◌∷◌, ◌++◌, Option, none, some,
  if◌then◌else◌, is_some,
}
use hical.Http2.Error.{NetworkError, stream_failure, http2_connection_error, internal_error}
use hical.Http2.Stream.{fail}
use hical.Http2.Receive.{
  CodecCall, or_cancelled, Receive, Reply, find_entry, reject, fail_connection, check_operation,
  codec_reset, codec_consume,
}
use hical.Http2.Receive.Table.{IsEnded, IsTable, All-append, retire-IsTable, found-IsEntry}
use hical.Http2.Receive.Ended.{fail-IsEnded, fail_all-IsEnded}

if_same : (b : Bool) (n : ℕ) → (if b then n else n) ≡ n
if_same true n = refl
if_same false n = refl

-- What a handler leaves is sound.
pub record KeepsTable (x : Receive × Reply) : Type 0 where
  pub sound : IsTable x.0

pub reject-IsTable :
    (now : ℕ) (r : Receive) (id : ℕ) (error : Option NetworkError)
    → IsTable r
    → KeepsTable (reject now r id error)
unfolding reject
reject-IsTable now r id error k =
    option_holds KeepsTable (find_entry id r.streams) _ _ (λ n. record { sound = k })
      (λ e h.
        let (s, t, _) = fail now r.shared e.stream error in
        record {
          sound =
              retire-IsTable r id s t k
                (fail-IsEnded now r.shared e.stream error (found-IsEntry r id e k h).consistent);
        })

pub fail_connection-IsTable :
    (now : ℕ) (r : Receive) (error : Option NetworkError)
    → IsTable r
    → IsTable (fail_connection now r error)
unfolding fail_connection
fail_connection-IsTable now r error k =
    if_holds IsTable (is_some r.connection_error) r _ k (record {
      entries = tt;
      empty_after_error = if_same (is_some (or_cancelled error)) 0;
      ended =
          All-append IsEnded r.retired _ k.ended
            (fail_all-IsEnded now (or_cancelled error) r.shared r.streams k.entries);
    })

check_operation-IsTable :
    (now : ℕ) (r : Receive) (error : Option NetworkError) (reply : Reply)
    → IsTable r
    → KeepsTable (check_operation now r error reply)
unfolding check_operation
check_operation-IsTable now r none reply k = record { sound = k }
check_operation-IsTable now r (some e) reply k = record {
  sound =
      fail_connection-IsTable now r (some (stream_failure http2_connection_error internal_error 0))
        k;
}

pub codec_reset-IsTable :
    (now : ℕ) (answer : ℕ → ℕ → Option NetworkError) (r : Receive) (id number : ℕ) (reply : Reply)
    → IsTable r
    → KeepsTable (codec_reset now answer r id number reply)
unfolding codec_reset
codec_reset-IsTable now answer r id number reply k =
    check_operation-IsTable now
      (record r { codec_calls = r.codec_calls ++ CodecCall.resets id number ∷ [] })
      (answer id number) reply
      (record { entries = k.entries; empty_after_error = k.empty_after_error; ended = k.ended })

pub codec_consume-IsTable :
    (now : ℕ) (answer : ℕ → ℕ → Option NetworkError) (r : Receive) (id size : ℕ) (reply : Reply)
    → IsTable r
    → KeepsTable (codec_consume now answer r id size reply)
unfolding codec_consume
codec_consume-IsTable now answer r id size reply k =
    check_operation-IsTable now
      (record r { codec_calls = r.codec_calls ++ CodecCall.consumes id size ∷ [] }) (answer id size)
      reply
      (record { entries = k.entries; empty_after_error = k.empty_after_error; ended = k.ended })
