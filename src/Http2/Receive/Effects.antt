-- ===== src/Http2/Receive/Effects.antt =====
-- Http2Receive.cpp: the calls of the codec that DATA leads to.
use hical.Base.{
  ℕ, zero, suc, ◌≡◌, refl, List, [], ◌∷◌, ◌++◌, Option, none, some, Text, length, arith, if_holds,
  option_holds, ◌≢◌, ap, ◌∙◌,
}
use hical.Http2.Error.{
  NetworkError, stream_failure, http2_connection_error, internal_error, no_error, protocol_error,
  stream_closed,
}
use hical.Http2.Stream.{append_body}
use hical.Http2.Receive.{
  Entry, CodecCall, Receive, Reply, find_entry, update, stream_error, rejection_code, reject,
  fail_connection, check_operation, codec_consume,
}
use hical.Http2.Receive.Data.{store_data, on_data}

-- What the codec was called for once DATA has that answer: the bytes are consumed, unless a code other
-- than no_error refuses them, for which the codec itself gives the credit back.
unfoldable pub credited : List CodecCall → ℕ → ℕ → Reply → List CodecCall
credited calls id size Reply.thrown = calls ++ CodecCall.consumes id size ∷ []
credited calls id size (Reply.code zero) = calls ++ CodecCall.consumes id size ∷ []
credited calls id size (Reply.code (suc _)) = calls

-- A refusal is never the code of an acceptance.
pub rejection_code-nonzero : (error : Option NetworkError) → rejection_code error ≢ no_error
unfolding rejection_code
rejection_code-nonzero error h = ground arith

record IsCredited (calls : List CodecCall) (id size : ℕ) (x : Receive × Reply) : Type 0 where
  credit : x.0.codec_calls ≡ credited calls id size x.1

credited_refusal :
    (calls : List CodecCall) (id size n : ℕ) → n ≢ 0 → calls ≡ credited calls id size (Reply.code n)
unfolding credited
credited_refusal calls id size zero h = absurd (h refl)
credited_refusal calls id size (suc n) h = refl

refused :
    {made calls : List CodecCall}
    → (id size : ℕ) → made ≡ calls
    → (error : Option NetworkError)
    → made ≡ credited calls id size (Reply.code (rejection_code error))
refused {calls = calls} id size h error =
    h ∙ credited_refusal calls id size (rejection_code error) (rejection_code-nonzero error)

module _ (now : ℕ) (calls : List CodecCall) (id size : ℕ) where
  reject-IsCredited :
      (r : Receive) (error : Option NetworkError)
      → r.codec_calls ≡ calls
      → IsCredited calls id size (reject now r id error)
  unfolding reject
  reject-IsCredited r error h =
      option_holds (IsCredited calls id size) (find_entry id r.streams) _ _
        (λ n. record { credit = refused id size h error })
        (λ e f. record { credit = refused id size h error })

  fail_connection-codec_calls :
      (r : Receive) (error : Option NetworkError)
      → (fail_connection now r error).codec_calls ≡ r.codec_calls
  unfolding fail_connection
  fail_connection-codec_calls r error = ground arith

  check-IsCredited :
      (r : Receive) (error : Option NetworkError)
      → r.codec_calls ≡ calls ++ CodecCall.consumes id size ∷ []
      → IsCredited calls id size (check_operation now r error (Reply.code no_error))
  unfolding check_operation credited
  check-IsCredited r none h = record { credit = h }
  check-IsCredited r (some e) h = record {
    credit =
        fail_connection-codec_calls r
          (some (stream_failure http2_connection_error internal_error 0))
        ∙ h;
  }

  consume-IsCredited :
      (answer : ℕ → ℕ → Option NetworkError) (r : Receive)
      → r.codec_calls ≡ calls
      → IsCredited calls id size (codec_consume now answer r id size (Reply.code no_error))
  unfolding codec_consume
  consume-IsCredited answer r h =
      check-IsCredited (record r { codec_calls = r.codec_calls ++ CodecCall.consumes id size ∷ [] })
        (answer id size) (ap (λ x. x ++ CodecCall.consumes id size ∷ []) h)

store_data-IsCredited :
    (now : ℕ) (answer reset_result : ℕ → ℕ → Option NetworkError) (r : Receive) (id : ℕ) (e : Entry)
    (bytes : Text)
    → IsCredited r.codec_calls id (length bytes) (store_data now answer reset_result r id e bytes)
unfolding store_data
store_data-IsCredited now answer reset_result r id e bytes =
    let (s, t, error) = append_body now r.shared e.stream bytes in
    let kept : Receive = record (update r id (record e { stream = t })) { shared = s } in
    option_holds (IsCredited r.codec_calls id (length bytes)) error _ _
      (λ n. consume-IsCredited now r.codec_calls id (length bytes) answer kept refl)
      (λ x f. reject-IsCredited now r.codec_calls id (length bytes) kept (some x) refl)

on_data-IsCredited :
    (now : ℕ) (answer reset_result : ℕ → ℕ → Option NetworkError) (r : Receive) (id : ℕ)
    (bytes : Text)
    → IsCredited r.codec_calls id (length bytes) (on_data now answer reset_result r id bytes)
unfolding on_data
on_data-IsCredited now answer reset_result r id bytes =
    let P = IsCredited r.codec_calls id (length bytes) in
    let no : (error : Option NetworkError) → P (reject now r id error) =
      λ error. reject-IsCredited now r.codec_calls id (length bytes) r error refl in
    option_holds P (find_entry id r.streams) _ _
      (λ n. record {
        credit = credited_refusal r.codec_calls id (length bytes) stream_closed (λ h. ground arith);
      })
      (λ e f. if_holds P _ _ _ (no e.stream.error) (
        if_holds P _ _ _ (no (some (stream_error id protocol_error))) (
          if_holds P _ _ _ (no (some (stream_error id protocol_error)))
            (store_data-IsCredited now answer reset_result r id e bytes))))

-- DATA for any stream: accepted, or stored before the codec fails, its bytes are consumed once, as the
-- last call of the codec; refused with a code, the codec is not called and the code is not no_error.
pub on_data-credited :
    (now : ℕ) (answer reset_result : ℕ → ℕ → Option NetworkError) (r : Receive) (id : ℕ)
    (bytes : Text)
    → (on_data now answer reset_result r id bytes).0.codec_calls
      ≡ credited r.codec_calls id (length bytes) (on_data now answer reset_result r id bytes).1
on_data-credited now answer reset_result r id bytes =
    (on_data-IsCredited now answer reset_result r id bytes).credit
