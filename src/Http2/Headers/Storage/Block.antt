-- ===== src/Http2/Headers/Storage/Block.antt =====
-- Http2Headers.cpp: a whole block, as the peer sends it.
use hical.Base.{ℕ, ◌≤◌, ◌≡◌, List, [], ◌∷◌, Text, length, Option, some, arith}
use hical.Http2.Options.{Http2Options, max_header_fields_cap}
use hical.Http2.Headers.Storage.{HeaderKind, Field, Storage, new_storage, fields, append}
use hical.Http2.Headers.Storage.Accepted.{
  IsWithin, IsOrdered, Ordered, append-IsWithin, append-IsOrdered,
}

new_storage-IsWithin :
    (kind : HeaderKind) (id : ℕ) (o : Http2Options) (s : Storage)
    → new_storage kind id o ≡ some s
    → IsWithin s
unfolding new_storage
new_storage-IsWithin kind id o s e = record {
  laid = ground arith;
  fields_counted = ground arith;
  bytes_counted = ground arith;
  fields_fit = ground arith;
  bytes_fit = ground arith;
  capped = ground arith;
  clean = ground arith;
}

new_storage-IsOrdered :
    (kind : HeaderKind) (id : ℕ) (o : Http2Options) (s : Storage)
    → new_storage kind id o ≡ some s
    → IsOrdered s
unfolding new_storage
new_storage-IsOrdered kind id o s e = record {
  laid = ground arith;
  before = λ u. ground arith;
  ordered = ground arith;
}

module _ (make_address_v6 : Text → Option Text) where
  -- Every field of a block, in the order of arrival, errors and all.
  unfoldable pub append_all : Storage → List Field → Storage
  append_all s [] = s
  append_all s (f ∷ fs) = append_all (append make_address_v6 s f.name f.value).0 fs

  append_all-IsWithin : (s : Storage) (fs : List Field) → IsWithin s → IsWithin (append_all s fs)
  unfolding append_all
  append_all-IsWithin s [] w = w
  append_all-IsWithin s (f ∷ fs) w =
      append_all-IsWithin (append make_address_v6 s f.name f.value).0 fs
        (append-IsWithin make_address_v6 s f.name f.value w)

  append_all-IsOrdered : (s : Storage) (fs : List Field) → IsOrdered s → IsOrdered (append_all s fs)
  unfolding append_all
  append_all-IsOrdered s [] w = w
  append_all-IsOrdered s (f ∷ fs) w =
      append_all-IsOrdered (append make_address_v6 s f.name f.value).0 fs
        (append-IsOrdered make_address_v6 s f.name f.value w)

  -- Whatever fields are appended to a new block, it stays within its budget and 64 fields, counts
  -- exactly what it holds, holds only well-formed names and values and no connection field, and has
  -- no pseudo-header behind a regular field.
  pub append_all_accepts :
      (kind : HeaderKind) (id : ℕ) (o : Http2Options) (s : Storage) (fs : List Field)
      → new_storage kind id o ≡ some s
      → let t = append_all s fs in
        IsWithin t × Ordered (fields t) × (length (fields t) ≤ max_header_fields_cap)
  append_all_accepts kind id o s fs e =
      let w = append_all-IsWithin s fs (new_storage-IsWithin kind id o s e) in
      let v = append_all-IsOrdered s fs (new_storage-IsOrdered kind id o s e) in
      (w, v.ordered, omega (arith, w.fields_counted, w.fields_fit, w.capped))
