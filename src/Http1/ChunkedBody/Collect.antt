-- ===== src/Http1/ChunkedBody/Collect.antt =====
-- write and end of src/core/ChunkedBody.cpp, called in any order.
use hical.Base.{
  ◌≡◌, refl, sym, ap, ◌∙◌, Bool, true, false, List, [], ◌∷◌, ◌++◌, Text, is_empty, if◌then◌else◌,
  All, subst, arith,
}
use hical.Http1.ChunkedBody.{ChunkExtension, ChunkedBody, new_body, write, end}
use hical.Http1.ChunkedBody.Wire.{IsFilled}

pub data Call : Type 0 where
  write_call : Text → Call
  end_call : List ChunkExtension → Call

unfoldable pub call : ChunkedBody → Call → ChunkedBody
unfolding write end
call body (write_call input) = write body input
call body (end_call trailers) = end body trailers

unfoldable pub run : ChunkedBody → List Call → ChunkedBody
unfolding call
run body [] = body
run body (c ∷ cs) = run (call body c) cs

-- What a body is to hold: the texts written before the first end, the empty ones left out, and the
-- trailers of that end.
abbrev pub collected : List Text → List Call → ChunkedBody
collected chunks [] = record { chunks = chunks; trailers = []; finished = false }
collected chunks (write_call input ∷ cs) =
    collected (if is_empty input then chunks else chunks ++ (input ∷ [])) cs
collected chunks (end_call trailers ∷ cs) = record {
  chunks = chunks;
  trailers = trailers;
  finished = true;
}

call-finished : (body : ChunkedBody) (c : Call) → body.finished ≡ true → call body c ≡ body
unfolding call write end
call-finished body (write_call input) h = ground (arith, h)
call-finished body (end_call trailers) h = ground (arith, h)

run-finished : (body : ChunkedBody) (cs : List Call) → body.finished ≡ true → run body cs ≡ body
unfolding run
run-finished body [] h = refl
run-finished body (c ∷ cs) h = ap (λ b. run b cs) (call-finished body c h) ∙ run-finished body cs h

abbrev open_body : List Text → ChunkedBody
open_body chunks = record { chunks = chunks; trailers = []; finished = false }

call-write :
    (chunks : List Text) (input : Text)
    → call (open_body chunks) (write_call input)
      ≡ open_body (if is_empty input then chunks else chunks ++ (input ∷ []))
unfolding call write
call-write chunks input = ground arith

call-end :
    (chunks : List Text) (trailers : List ChunkExtension)
    → call (open_body chunks) (end_call trailers)
      ≡ record { chunks = chunks; trailers = trailers; finished = true }
unfolding call end
call-end chunks trailers = refl

run-collected :
    (cs : List Call) (chunks : List Text) → run (open_body chunks) cs ≡ collected chunks cs
unfolding run
run-collected [] chunks = refl
run-collected (write_call input ∷ cs) chunks =
    ap (λ b. run b cs) (call-write chunks input)
    ∙ run-collected cs (if is_empty input then chunks else chunks ++ (input ∷ []))
run-collected (end_call trailers ∷ cs) chunks =
    ap (λ b. run b cs) (call-end chunks trailers)
    ∙ run-finished (record { chunks = chunks; trailers = trailers; finished = true }) cs refl

All-snoc :
    (chunks : List Text) (input : Text)
    → All IsFilled chunks
    → IsFilled input
    → All IsFilled (chunks ++ (input ∷ []))
All-snoc [] input h k = (k, tt)
All-snoc (chunk ∷ chunks) input (h, hs) k = (h, All-snoc chunks input hs k)

kept :
    (chunks : List Text) (input : Text) (b : Bool)
    → is_empty input ≡ b
    → All IsFilled chunks
    → All IsFilled (if b then chunks else chunks ++ (input ∷ []))
kept chunks input true e h = h
kept chunks input false e h = All-snoc chunks input h e

collected-IsFilled :
    (cs : List Call) (chunks : List Text)
    → All IsFilled chunks
    → All IsFilled (collected chunks cs).chunks
collected-IsFilled [] chunks h = h
collected-IsFilled (write_call input ∷ cs) chunks h =
    collected-IsFilled cs (if is_empty input then chunks else chunks ++ (input ∷ []))
      (kept chunks input (is_empty input) refl h)
collected-IsFilled (end_call trailers ∷ cs) chunks h = h

-- Whatever the calls of write and end, a body holds the texts that were written before the first end,
-- in order and without the empty ones, and the trailers of that end; later calls change nothing. So
-- none of its chunks is empty, which on the wire would end the body.
pub run-new_body :
    (cs : List Call) → (run new_body cs ≡ collected [] cs) × All IsFilled (run new_body cs).chunks
run-new_body cs =
    let e = run-collected cs [] in
    (e, subst (λ b. All IsFilled b.chunks) (sym e) (collected-IsFilled cs [] tt))
