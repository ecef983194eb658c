-- ===== src/Http2/Headers/Storage/Fields.antt =====
-- Http2Headers.cpp: the buffer with its offsets, and the list of the fields that were stored.
use hical.Base.{
  ◌+◌, ◌≤◌, ◌≡◌, refl, ap, ap₂, ◌∙◌, Bool, List, [], ◌∷◌, ◌++◌, map, arith, Text, length,
  length-append, All, substr, substr-append_of_le, drop-append, take-append, subst, append_assoc,
  append-nil, drop, take,
}
use hical.Http2.Headers.Storage.{Field, Offset, Storage, field, fields, store}

-- An offset stays within the buffer.
abbrev pub IsInside : Text → Offset → Type 0
IsInside bytes o = (o.name + o.name_size ≤ length bytes) × (o.value + o.value_size ≤ length bytes)

abbrev pub IsLaid : Storage → Type 0
IsLaid s = All (IsInside s.bytes) s.entries

field-append :
    (bytes more : Text) (o : Offset) → IsInside bytes o → field (bytes ++ more) o ≡ field bytes o
field-append bytes more o h = λ i. record {
  name = substr-append_of_le o.name o.name_size bytes more h.0 i;
  value = substr-append_of_le o.value o.value_size bytes more h.1 i;
}

pub map-field-append :
    (bytes more : Text) (os : List Offset)
    → All (IsInside bytes) os
    → map (field (bytes ++ more)) os ≡ map (field bytes) os
map-field-append bytes more [] h = refl
map-field-append bytes more (o ∷ os) h =
    ap₂ ◌∷◌ (field-append bytes more o h.0) (map-field-append bytes more os h.1)

pub All-IsInside-append :
    (bytes more : Text) (os : List Offset)
    → All (IsInside bytes) os
    → All (IsInside (bytes ++ more)) os
All-IsInside-append bytes more [] h = tt
All-IsInside-append bytes more (o ∷ os) h =
    (omega (arith, h.0, length-append bytes more), All-IsInside-append bytes more os h.1)

pub map-append_one {ℓ κ} :
    {A : Type ℓ} {B : Type κ} (f : A → B) (xs : List A) (x : A)
    → map f (xs ++ x ∷ []) ≡ map f xs ++ f x ∷ []
map-append_one f [] x = refl
map-append_one f (y ∷ xs) x = ap (◌∷◌ (f y)) (map-append_one f xs x)

pub All-append_one {ℓ κ} :
    {A : Type ℓ} (P : A → Type κ) (xs : List A) (x : A) → All P xs → P x → All P (xs ++ x ∷ [])
All-append_one P [] x h p = (p, tt)
All-append_one P (y ∷ xs) x h p = (h.0, All-append_one P xs x h.1 p)

-- The two texts that are added at the end of a buffer, read back.
abbrev pub last_offset : Text → Text → Text → Offset
last_offset bytes name value = record {
  name = length bytes;
  name_size = length name;
  value = length bytes + length name;
  value_size = length value;
}

pub field-last_offset :
    (bytes name value : Text)
    → field (bytes ++ (name ++ value)) (last_offset bytes name value)
      ≡ record { name = name; value = value }
field-last_offset bytes name value = λ i. record { name = first i; value = second i }
  where
    first : substr (length bytes) (length name) (bytes ++ (name ++ value)) ≡ name
    first = ap (take (length name)) (drop-append bytes (name ++ value)) ∙ take-append name value

    regroup :
        drop (length bytes + length name) (bytes ++ (name ++ value))
        ≡ drop (length (bytes ++ name)) ((bytes ++ name) ++ value)
    regroup = rw (length-append bytes name, append_assoc bytes name value)

    whole : take (length value) value ≡ value
    whole = subst (λ t. take (length value) t ≡ value) (append-nil value) (take-append value [])

    second : substr (length bytes + length name) (length value) (bytes ++ (name ++ value)) ≡ value
    second = ap (take (length value)) (regroup ∙ drop-append (bytes ++ name) value) ∙ whole

-- Storing a field adds exactly that field, and leaves the others as they were.
pub fields-store :
    (s : Storage) (pseudo : Bool) (name value : Text)
    → IsLaid s
    → fields (store s pseudo name value) ≡ fields s ++ record { name = name; value = value } ∷ []
unfolding store
fields-store s pseudo name value h =
    map-append_one (field (s.bytes ++ (name ++ value))) s.entries _
    ∙ ap₂ (λ (fs : List Field) (f : Field). fs ++ f ∷ [])
        (map-field-append s.bytes (name ++ value) s.entries h)
        (field-last_offset s.bytes name value)

pub store-IsLaid :
    (s : Storage) (pseudo : Bool) (name value : Text)
    → IsLaid s
    → IsLaid (store s pseudo name value)
unfolding store
store-IsLaid s pseudo name value h =
    All-append_one (IsInside (s.bytes ++ (name ++ value))) s.entries _
      (All-IsInside-append s.bytes (name ++ value) s.entries h)
      (omega (arith, length-append s.bytes (name ++ value), length-append name value))
