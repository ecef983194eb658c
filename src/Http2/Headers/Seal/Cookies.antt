-- ===== src/Http2/Headers/Seal/Cookies.antt =====
-- Http2Headers.cpp, `combineCookies`: the rewritten buffer against a merge of plain lists.
use hical.Base.{
  ◌≤◌, ◌<◌, ◌≡◌, refl, ap, ap₂, ◌∙◌, sym, Bool, true, false, ◌||◌, List, [], ◌∷◌, ◌++◌, map, arith,
  Text, codes, length-append, All, inl, inr, Bool-cases, if◌then◌else◌, append_assoc, append-nil,
  ltb,
}
use hical.Http2.Headers.Storage.{Field, Offset, Storage, field, fields, is_request}
use hical.Http2.Headers.Storage.Fields.{
  IsInside, map-append_one, All-append_one, map-field-append, All-IsInside-append, last_offset,
  field-last_offset,
}
use hical.Http2.Headers.Seal.{
  is_cookie, join_cookies, write_field, offset_of, normalize, count_cookies, combine_cookies,
}

-- The values of the cookies, in order.
unfoldable pub crumbs : List Field → List Text
crumbs [] = []
crumbs (f ∷ fs) = if is_cookie f then f.value ∷ crumbs fs else crumbs fs

-- Each text with "; " before it.
unfoldable pub prefixed : List Text → Text
prefixed [] = []
prefixed (t ∷ ts) = codes "; " ++ (t ++ prefixed ts)

-- The first cookie takes all values, joined by "; "; the later ones are dropped.
unfoldable pub merge : List Field → Bool → List Field
unfolding crumbs prefixed
merge [] combined = []
merge (f ∷ fs) combined =
    let rest = merge fs (combined || is_cookie f) in
    if is_cookie f
    then if combined
      then rest
      else record { name = f.name; value = f.value ++ prefixed (crumbs fs) } ∷ rest
    else f ∷ rest

join_rest :
    (fs : List Field) (bytes : Text) → join_cookies fs false bytes ≡ bytes ++ prefixed (crumbs fs)
unfolding join_cookies crumbs prefixed
join_rest [] bytes = sym (append-nil bytes)
join_rest (f ∷ fs) bytes = elim (Bool-cases (is_cookie f)) [
  | inl e ↦ rw e (join_rest fs ((bytes ++ codes "; ") ++ f.value) ∙ simp append_assoc)
  | inr e ↦ rw e (join_rest fs bytes)
]

-- The result of a pass over `rest`, read back.
record Reads (bytes : Text) (offsets : List Offset) (out : List Field) (r : Text × List Offset)
    : Type 0 where
  laid : All (IsInside r.0) r.1
  reads : map (field r.0) r.1 ≡ map (field bytes) offsets ++ out

-- One field is written, and the pass goes on behind it.
Reads-step :
    (bytes name value : Text) (offsets : List Offset) (out : List Field) (r : Text × List Offset)
    → All (IsInside bytes) offsets
    → (All (IsInside (bytes ++ (name ++ value))) (offsets ++ last_offset bytes name value ∷ [])
        → Reads (bytes ++ (name ++ value)) (offsets ++ last_offset bytes name value ∷ []) out r)
    → Reads bytes offsets (record { name = name; value = value } ∷ out) r
Reads-step bytes name value offsets out r h next = record {
  laid = rest.laid;
  reads =
      rest.reads
      ∙ ap (λ (fs : List Field). fs ++ out) written
      ∙ append_assoc (map (field bytes) offsets) (record { name = name; value = value } ∷ []) out;
}
  where
    more : Text
    more = name ++ value

    inside : All (IsInside (bytes ++ more)) (offsets ++ last_offset bytes name value ∷ [])
    inside =
        All-append_one _ offsets _ (All-IsInside-append bytes more offsets h)
          (omega (arith, length-append bytes more, length-append name value))

    rest : Reads (bytes ++ more) (offsets ++ last_offset bytes name value ∷ []) out r
    rest = next inside

    written :
        map (field (bytes ++ more)) (offsets ++ last_offset bytes name value ∷ [])
        ≡ map (field bytes) offsets ++ record { name = name; value = value } ∷ []
    written =
        map-append_one (field (bytes ++ more)) offsets (last_offset bytes name value)
        ∙ ap₂ (λ (fs : List Field) (f : Field). fs ++ f ∷ [])
            (map-field-append bytes more offsets h) (field-last_offset bytes name value)

-- The value that a field gets.
abbrev merged_value : Field → List Field → Text
merged_value f rest = if is_cookie f then f.value ++ prefixed (crumbs rest) else f.value

write_field_lem :
    (f : Field) (rest : List Field) (bytes : Text)
    → write_field f rest bytes ≡ bytes ++ (f.name ++ merged_value f rest)
unfolding write_field join_cookies
write_field_lem f rest bytes = elim (Bool-cases (is_cookie f)) [
  | inl e ↦ rw e (join_rest rest ((bytes ++ f.name) ++ f.value) ∙ simp append_assoc)
  | inr e ↦ rw e (simp append_assoc)
]

offset_of_lem :
    (f : Field) (bytes value : Text)
    → offset_of bytes f (bytes ++ (f.name ++ value)) ≡ last_offset bytes f.name value
unfolding offset_of
offset_of_lem f bytes value =
    ground (arith, length-append bytes (f.name ++ value), length-append f.name value)

Reads-write :
    (f : Field) (rest : List Field) (bytes : Text) (offsets : List Offset) (combined : Bool)
    (out : List Field)
    → All (IsInside bytes) offsets
    → ((bytes' : Text) (offsets' : List Offset)
        → All (IsInside bytes') offsets'
        → Reads bytes' offsets' out (normalize rest bytes' offsets' combined))
    → let written = write_field f rest bytes in
      Reads bytes offsets
        (record { name = f.name; value = merged_value f rest } ∷ out)
        (normalize rest written (offsets ++ offset_of bytes f written ∷ []) combined)
Reads-write f rest bytes offsets combined out h next =
    rw (write_field_lem f rest bytes, offset_of_lem f bytes (merged_value f rest))
      (Reads-step bytes f.name (merged_value f rest) offsets out _ h (next _ _))

normalize-Reads :
    (rest : List Field) (bytes : Text) (offsets : List Offset) (combined : Bool)
    → All (IsInside bytes) offsets
    → Reads bytes offsets (merge rest combined) (normalize rest bytes offsets combined)
unfolding normalize merge
normalize-Reads [] bytes offsets combined h = record { laid = h; reads = sym (append-nil _) }
normalize-Reads (f ∷ rest) bytes offsets combined h =
    let next =
      Reads-write f rest bytes offsets (combined || is_cookie f)
        (merge rest (combined || is_cookie f)) h
        (λ bytes' offsets' h'. normalize-Reads rest bytes' offsets' (combined || is_cookie f) h') in
    elim (Bool-cases (is_cookie f)) [
      | inl e ↦ elim (Bool-cases combined) [
        | inl c ↦ rw (e, c) (rw c at (normalize-Reads rest bytes offsets combined h))
        | inr c ↦ rw (e, c) (rw (e, c) at next)
      ]
      | inr e ↦ rw e (rw e at next)
    ]

no_cookies : (fs : List Field) → count_cookies fs ≡ 0 → (crumbs fs ≡ []) × (merge fs true ≡ fs)
unfolding count_cookies crumbs merge
no_cookies [] e = (refl, refl)
no_cookies (f ∷ fs) e = elim (Bool-cases (is_cookie f)) [
  | inl c ↦ absurd (ground arith)
  | inr c ↦ let rest = no_cookies fs (ground arith) in rw c (rest.0, ap (◌∷◌ f) rest.1)
]

lone_cookie :
    (f : Field) (fs : List Field)
    → crumbs fs ≡ []
    → ◌≡◌ {A = Field} (record { name = f.name; value = f.value ++ prefixed (crumbs fs) }) f
unfolding prefixed
lone_cookie f fs e = rw e (λ i. record { name = f.name; value = append-nil f.value i })

merge-few : (fs : List Field) → count_cookies fs < 2 → merge fs false ≡ fs
unfolding merge count_cookies
merge-few [] h = refl
merge-few (f ∷ fs) h = elim (Bool-cases (is_cookie f)) [
  | inl e ↦
      let rest = no_cookies fs (ground arith) in rw e (ap₂ ◌∷◌ (lone_cookie f fs rest.0) rest.1)
  | inr e ↦ rw e (ap (◌∷◌ f) (merge-few fs (ground arith)))
]

combined_fields :
    (s : Storage)
    → map (field (normalize (fields s) [] [] false).0) (normalize (fields s) [] [] false).1
      ≡ merge (fields s) false
combined_fields s = (normalize-Reads (fields s) [] [] false tt).reads

-- Read back from the rewritten buffer, a request's fields are those of `merge`: the first cookie has
-- all cookie values joined by "; ", the others are gone; another kind of block is left alone.
pub fields-combine_cookies :
    (s : Storage)
    → fields (combine_cookies s) ≡ (if is_request s.kind then merge (fields s) false else fields s)
unfolding combine_cookies
fields-combine_cookies s = elim (Bool-cases (is_request s.kind)) [
  | inr other ↦ ground arith
  | inl req ↦ elim (Bool-cases (ltb (count_cookies (fields s)) 2)) [
    | inl few ↦ ground (arith, merge-few (fields s))
    | inr many ↦ ground (arith, combined_fields s)
  ]
]

-- A merged block has one cookie at most.
pub count_cookies-merge :
    (fs : List Field) (combined : Bool)
    → count_cookies (merge fs combined) ≤ (if combined then 0 else 1)
unfolding merge count_cookies
count_cookies-merge [] combined = ground arith
count_cookies-merge (f ∷ fs) combined =
    ground (arith, count_cookies-merge fs true, count_cookies-merge fs combined)
