-- ===== src/Http2/Receive/Table.antt =====
-- Http2Receive.cpp: an invariant of the table and its entries.
use hical.Base.{
  suc, ◌≤◌, if_holds, ℕ, ◌≡◌, refl, ap, subst, true, false, not, ◌||◌, List, [], ◌∷◌, ◌++◌, none,
  some, length, ◌==◌, if◌then◌else◌, is_some, arith, All, inl, inr, Bool-cases,
}
use hical.Http2.Budget.{Shared}
use hical.Http2.Headers.Storage.{is_trailers}
use hical.Http2.Headers.Seal.{is_sealed}
use hical.Http2.Stream.{Stream, received_bytes}
use hical.Http2.Stream.Consistent.{IsConsistent}
use hical.Http2.Receive.{Entry, Receive, find_entry, without_entry, put_entry, update}
use hical.Http2.Receive.Data.{exceeds, differs}

-- An entry whose message keeps to its declared length.
pub record IsEntry (e : Entry) : Type 0 where
  pub consistent : IsConsistent e.stream
  pub fits : exceeds e.expected_length (received_bytes e.stream) 0 ≡ false
  -- A block that is not of trailers is the first of its message.
  pub fresh :
      (not (is_some e.pending_headers)
        || is_trailers e.pending_kind
        || not (is_sealed e.stream.initial_headers))
      ≡ true
  pub unsealed_is_empty :
      (if is_sealed e.stream.initial_headers then 0 else received_bytes e.stream) ≡ 0
  pub unsealed_waits :
      (is_sealed e.stream.initial_headers || not e.stream.body_complete || e.stream.body_failed)
      ≡ true
  -- A message that is complete, and did not fail, has its declared length.
  pub exact :
      (not e.stream.body_complete
        || e.stream.body_failed
        || not (differs e.expected_length (received_bytes e.stream)))
      ≡ true

-- A stream that holds no protocol slot, and for whose body nothing waits.
pub record IsEnded (t : Stream) : Type 0 where
  pub closed : t.protocol.held ≡ false
  pub complete : t.body_complete ≡ true

-- Behind a connection error the table is empty; a stream that left the table is ended.
pub record IsTable (r : Receive) : Type 0 where
  pub entries : All IsEntry r.streams
  pub empty_after_error : (if is_some r.connection_error then length r.streams else 0) ≡ 0
  pub ended : All IsEnded r.retired

All-without :
    (P : Entry → Type 0) (id : ℕ) (es : List Entry) → All P es → All P (without_entry id es)
unfolding without_entry
All-without P id [] a = a
All-without P id (e ∷ es) a =
    if_holds (All P) (e.stream.id == id) es (e ∷ without_entry id es) a.1
      (a.0, All-without P id es a.1)

All-put :
    (P : Entry → Type 0) (id : ℕ) (f : Entry) (es : List Entry)
    → P f
    → All P es
    → All P (put_entry id f es)
unfolding put_entry
All-put P id f [] p a = a
All-put P id f (e ∷ es) p a =
    if_holds (All P) (e.stream.id == id) (f ∷ es) (e ∷ put_entry id f es) (p, a.1)
      (a.0, All-put P id f es p a.1)

some_entry : (f e : Entry) → some f ≡ some e → f ≡ e
some_entry f e h = ap (λ o. elim o as (λ _. Entry) [ none ↦ f | some x ↦ x ]) h

All-find :
    (P : Entry → Type 0) (id : ℕ) (e : Entry) (es : List Entry)
    → All P es
    → find_entry id es ≡ some e
    → P e
unfolding find_entry
All-find P id e [] a h = absurd (ground arith)
All-find P id e (f ∷ fs) a h = elim (Bool-cases (f.stream.id == id)) [
  | inl same ↦ subst P {x = f} (some_entry f e (ground arith)) a.0
  | inr other ↦ All-find P id e fs a.1 (ground arith)
]

length-without : (id : ℕ) (es : List Entry) → length (without_entry id es) ≤ length es
unfolding without_entry
length-without id [] = omega arith
length-without id (e ∷ es) =
    if_holds (λ x. length x ≤ suc (length es)) (e.stream.id == id) es (e ∷ without_entry id es)
      (omega arith) (omega (arith, length-without id es))

length-put : (id : ℕ) (f : Entry) (es : List Entry) → length (put_entry id f es) ≤ length es
unfolding put_entry
length-put id f [] = omega arith
length-put id f (e ∷ es) =
    if_holds (λ x. length x ≤ suc (length es)) (e.stream.id == id) (f ∷ es) (e ∷ put_entry id f es)
      (omega arith) (omega (arith, length-put id f es))

-- A table with no more entries than one that is sound, and no other connection error.
fewer-IsTable :
    (r t : Receive)
    → IsTable r
    → All IsEntry t.streams
    → length t.streams ≤ length r.streams
    → t.connection_error ≡ r.connection_error
    → All IsEnded t.retired
    → IsTable t
fewer-IsTable r t k a n e d = record {
  entries = a;
  ended = d;
  empty_after_error = ground (arith, k.empty_after_error);
}

pub update-IsTable :
    (r : Receive) (id : ℕ) (e : Entry) → IsTable r → IsEntry e → IsTable (update r id e)
update-IsTable r id e k p =
    fewer-IsTable r (update r id e) k (All-put IsEntry id e r.streams p k.entries)
      (length-put id e r.streams) refl k.ended

pub found-IsEntry :
    (r : Receive) (id : ℕ) (e : Entry) → IsTable r → find_entry id r.streams ≡ some e → IsEntry e
found-IsEntry r id e k h = All-find IsEntry id e r.streams k.entries h

pub shared-IsTable : (r : Receive) (s : Shared) → IsTable r → IsTable (record r { shared = s })
shared-IsTable r s k = record {
  entries = k.entries;
  empty_after_error = k.empty_after_error;
  ended = k.ended;
}

pub All-append {ℓ} :
    {A : Type ℓ} → (P : A → Type 0) (xs ys : List A) → All P xs → All P ys → All P (xs ++ ys)
All-append P [] ys a b = b
All-append P (x ∷ xs) ys a b = (a.0, All-append P xs ys a.1 b)

-- A stream that is ended leaves the table.
pub retire-IsTable :
    (r : Receive) (id : ℕ) (s : Shared) (t : Stream)
    → IsTable r
    → IsEnded t
    → IsTable (record r {
      shared = s;
      streams = without_entry id r.streams;
      retired = r.retired ++ t ∷ [];
    })
retire-IsTable r id s t k d =
    fewer-IsTable r
      (record r { shared = s; streams = without_entry id r.streams; retired = r.retired ++ t ∷ [] })
      k (All-without IsEntry id r.streams k.entries) (length-without id r.streams) refl
      (All-append IsEnded r.retired (t ∷ []) k.ended (d, tt))

-- A stream is added to the table of a connection without an error.
pub enrol-IsTable :
    (r : Receive) (s : Shared) (e : Entry)
    → IsTable r
    → IsEntry e
    → r.connection_error ≡ none
    → IsTable (record r { shared = s; streams = r.streams ++ e ∷ [] })
enrol-IsTable r s e k p n = record {
  entries = All-append IsEntry r.streams (e ∷ []) k.entries (p, tt);
  ended = k.ended;
  empty_after_error = ap (λ o. if is_some o then length (r.streams ++ e ∷ []) else 0) n;
}
