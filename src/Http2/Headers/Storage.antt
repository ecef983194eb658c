-- ===== src/Http2/Headers/Storage.antt =====
-- Http2Headers.cpp, `Http2Headers::Storage`: fields as offsets into one buffer, checked as they come.
pub mod Fields
pub mod Accepted
pub mod Block
use hical.Base.{
  ℕ, zero, suc, ◌+◌, ◌-◌, ◌*◌, ◌/◌, ◌^◌, Bool, true, false, not, ◌&&◌, ◌||◌, Option, none, some,
  List, [], ◌∷◌, ◌++◌, map, ltb, leb, ◌==◌, if◌then◌else◌, is_some, Text, codes, text_eq, all,
  contains, starts_with, one_of, is_empty, front, drop, substr, iequals, length, get_elem?,
}
use hical.Http2.Options.{Http2Options, validation_error, header_field_overhead_bytes}
use hical.Http2.Error.{
  NetworkError, stream_failure, resource_limit_exceeded, http2_stream_error, invalid_configuration,
  enhance_your_calm, protocol_error,
}
use hical.Http2.Headers.Syntax.{
  connection_fields, forbidden_trailers, digit, token, valid_value, valid_scheme, unsigned_decimal,
  parse_authority, same_authority, Authority,
}

pub data HeaderKind : Type 0 where
  request response trailers : HeaderKind

abbrev pub is_request : HeaderKind → Bool
is_request request = true
is_request _ = false

abbrev pub is_response : HeaderKind → Bool
is_response response = true
is_response _ = false

abbrev pub is_trailers : HeaderKind → Bool
is_trailers trailers = true
is_trailers _ = false

pub record Field : Type 0 where
  pub name : Text
  pub value : Text

pub record Offset : Type 0 where
  pub name : ℕ
  pub name_size : ℕ
  pub value : ℕ
  pub value_size : ℕ

-- `entries_` and `views_` are the parts of the arrays that are in use, `entryCount_` and
-- `viewCount_` their lengths.
pub record Storage : Type 0 where
  pub kind : HeaderKind
  pub stream_id : ℕ
  pub max_fields : ℕ
  pub max_bytes : ℕ
  pub decoded_fields : ℕ
  pub decoded_bytes : ℕ
  pub entries : List Offset
  pub views : List Field
  pub bytes : Text
  pub content_length : Option ℕ
  pub status : ℕ
  pub regular_seen : Bool
  pub sealed : Bool
  pub error : Option NetworkError

-- The constructor; `none` is the exception.
unfoldable pub new_storage : HeaderKind → ℕ → Http2Options → Option Storage
unfolding validation_error
new_storage kind stream_id o =
    if is_some (validation_error o) || stream_id == 0
    then none
    else some (record {
      kind = kind;
      stream_id = stream_id;
      max_fields = o.max_header_fields;
      max_bytes = o.max_header_bytes;
      decoded_fields = 0;
      decoded_bytes = 0;
      entries = [];
      views = [];
      bytes = [];
      content_length = none;
      status = 0;
      regular_seen = false;
      sealed = false;
      error = none;
    })

abbrev pub field : Text → Offset → Field
field bytes o = record {
  name = substr o.name o.name_size bytes;
  value = substr o.value o.value_size bytes;
}

abbrev pub fields : Storage → List Field
fields s = map (field s.bytes) s.entries

-- The first field of that name, where `findEntry` gives its index.
unfoldable pub find_field : Text → List Field → Option Field
find_field name [] = none
find_field name (f ∷ fs) = if text_eq f.name name then some f else find_field name fs

abbrev pub find_entry : Storage → Text → Option Field
find_entry s name = find_field name (fields s)

abbrev value_or_empty : Option Field → Text
value_or_empty none = []
value_or_empty (some f) = f.value

abbrev pub value_of : Storage → Text → Text
value_of s name = value_or_empty (find_entry s name)

-- The first error of a block stays.
unfoldable pub fail : Storage → Bool → Storage × Option NetworkError
fail s resource = elim s.error [
  | some e ↦ (s, some e)
  | none ↦
      let e =
        if resource
        then stream_failure resource_limit_exceeded enhance_your_calm s.stream_id
        else stream_failure http2_stream_error protocol_error s.stream_id in
      (record s { error = some e }, some e)
]

-- The field is stored: the buffer, its offsets and the budget change together.
unfoldable pub store : Storage → Bool → Text → Text → Storage
store s pseudo name value = record s {
  bytes = s.bytes ++ (name ++ value);
  entries =
      s.entries
      ++ record {
        name = length s.bytes;
        name_size = length name;
        value = length s.bytes + length name;
        value_size = length value;
      }
        ∷ [];
  decoded_fields = s.decoded_fields + 1;
  decoded_bytes = s.decoded_bytes + (header_field_overhead_bytes + length name + length value);
  regular_seen = s.regular_seen || not pseudo;
  content_length =
      if text_eq name (codes "content-length") then unsigned_decimal value else s.content_length;
}

-- `maxBytes_ - decodedBytes_` cannot wrap: `IsWithin` of `Accepted`.
abbrev pub over_budget : Storage → Text → Text → Bool
over_budget s name value =
    let remaining = s.max_bytes - s.decoded_bytes in
    leb s.max_fields s.decoded_fields
    || ltb remaining header_field_overhead_bytes
    || ltb (remaining - header_field_overhead_bytes) (length name)
    || ltb (remaining - header_field_overhead_bytes - length name) (length value)

abbrev pub well_formed : Text → Text → Bool
well_formed name value =
    token (if starts_with (codes ":") name then drop 1 name else name) true && valid_value value

module _ (make_address_v6 : Text → Option Text) where
  abbrev has_authority : Text → Bool
  has_authority value = is_some (parse_authority make_address_v6 value)

  -- Whether `validatePseudo` lets the pseudo-header pass.
  unfoldable pub valid_pseudo : Storage → Text → Text → Bool
  unfolding all
  valid_pseudo s name value =
      if s.regular_seen || is_trailers s.kind || is_empty value || is_some (find_entry s name)
      then false
      else if is_response s.kind
      then text_eq name (codes ":status")
        && length value == 3
        && all digit value
        && not (front value == b'0')
        && not (text_eq value (codes "101"))
      else (text_eq name (codes ":method") && token value false)
        || (text_eq name (codes ":scheme") && valid_scheme value)
        || (text_eq name (codes ":authority") && has_authority value)
        || (text_eq name (codes ":path")
            && not (contains b'#' value)
            && all (λ b. ltb 0x20 b && not (b == 0x7f)) value)

  -- Whether `validateRegular` lets the field pass.
  unfoldable pub valid_regular : Storage → Text → Text → Bool
  valid_regular s name value =
      not (one_of name connection_fields)
      && not
          (is_trailers s.kind && (starts_with (codes "if-") name || one_of name forbidden_trailers))
      && not (
          text_eq name (codes "te")
          && (not (is_request s.kind) || not (iequals value (codes "trailers"))))
      && not (
          text_eq name (codes "content-length")
          && (is_some s.content_length || not (is_some (unsigned_decimal value))))
      && not (
          is_request s.kind
          && text_eq name (codes "host")
          && (is_some (find_entry s name) || not (has_authority value)))

  unfoldable pub append : Storage → Text → Text → Storage × Option NetworkError
  unfolding store fail
  append s name value =
      let pseudo = starts_with (codes ":") name in
      if s.sealed
      then (s, some (record { code = invalid_configuration; http2 = none }))
      else if is_some s.error
      then (s, s.error)
      else if over_budget s name value
      then fail s true
      else if not (well_formed name value)
      then fail s false
      else if not (if pseudo then valid_pseudo s name value else valid_regular s name value)
      then fail s false
      else (store s pseudo name value, none)
