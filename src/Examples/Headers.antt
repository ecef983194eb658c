-- ===== src/Examples/Headers.antt =====
-- A request with two cookies and an authority, from the wire to its sealed views.
use hical.Base.{
  ◌↔◌, ◌⊎◌, ◌≤◌, ◌≡◌, refl, true, false, if◌then◌else◌, List, [], ◌∷◌, some, none, Option, Text,
  codes, length, is_some, All, text_eq, contains, starts_with, one_of, iequals,
}
use hical.Http2.Options.{default_options, max_header_fields_cap}
use hical.Http2.Headers.Syntax.{parse_authority, token, valid_value, same_authority, valid_scheme}
use hical.Http2.Headers.Storage.{
  request, Field, Storage, fields, new_storage, append, value_of, is_request, valid_pseudo,
  valid_regular, find_field,
}
use hical.Http2.Headers.Storage.Accepted.{IsWithin, Ordered, append-fields}
use hical.Http2.Headers.Storage.Block.{append_all, append_all_accepts}
use hical.Http2.Headers.Seal.{
  seal, combine_cookies, all_views, complete_request, validate_complete, validate_kind,
  count_cookies, normalize, write_field, offset_of, view_of, join_cookies, make_views,
  collect_views, seen_host,
}
use hical.Http2.Headers.Seal.Cookies.{merge, fields-combine_cookies}
use hical.Http2.Headers.Seal.Views.{Names, has_host, all_views-host}
use hical.Http2.Headers.Seal.Complete.{seal-views_fit}
use hical.Http2.Headers.Seal.Whole.{IsWhole}
use hical.Http2.Headers.Seal.Accepts.{seal_iff}

-- A parser that knows no IPv6 address.
abbrev no_ipv6 : Text → Option Text
no_ipv6 t = none

abbrev empty_block : Storage
empty_block = record {
  kind = request;
  stream_id = 1;
  max_fields = 64;
  max_bytes = 8192;
  decoded_fields = 0;
  decoded_bytes = 0;
  entries = [];
  views = [];
  bytes = [];
  content_length = none;
  status = 0;
  regular_seen = false;
  sealed = false;
  error = none;
}

empty_block-new : new_storage request 1 default_options ≡ some empty_block
unfolding new_storage
empty_block-new = refl

abbrev wire : List Field
wire =
    record { name = codes ":method"; value = codes "GET" }
    ∷ record { name = codes ":scheme"; value = codes "https" }
    ∷ record { name = codes ":path"; value = codes "/a" }
    ∷ record { name = codes ":authority"; value = codes "h:443" }
    ∷ record { name = codes "cookie"; value = codes "a=1" }
    ∷ record { name = codes "accept"; value = codes "*/*" }
    ∷ record { name = codes "cookie"; value = codes "b=2" }
    ∷ []

append_all_accepts_example :
    IsWithin (append_all no_ipv6 empty_block wire)
    × Ordered (fields (append_all no_ipv6 empty_block wire))
    × (length (fields (append_all no_ipv6 empty_block wire)) ≤ max_header_fields_cap)
append_all_accepts_example =
    append_all_accepts no_ipv6 request 1 default_options empty_block wire empty_block-new

append-fields_example : fields (append no_ipv6 empty_block (codes "x") (codes "1")).0 ≡ (
    if is_some (append no_ipv6 empty_block (codes "x") (codes "1")).1
    then []
    else record { name = codes "x"; value = codes "1" } ∷ [])
append-fields_example = append-fields no_ipv6 empty_block (codes "x") (codes "1") tt

abbrev block : Storage
block = append_all no_ipv6 empty_block wire

wire_accepted : fields block ≡ wire
unfolding append_all append valid_pseudo valid_regular token valid_value valid_scheme
    parse_authority text_eq starts_with one_of find_field contains iequals
wire_accepted = refl

fields-combine_cookies_example :
    fields (combine_cookies block)
    ≡ (if is_request block.kind then merge (fields block) false else fields block)
fields-combine_cookies_example = fields-combine_cookies block

block_seals : (block.sealed ≡ false) × ((seal no_ipv6 block).1 ≡ none)
unfolding append_all append valid_pseudo valid_regular token valid_value valid_scheme
    parse_authority text_eq starts_with one_of find_field contains iequals seal validate_complete
    validate_kind complete_request same_authority
block_seals = (refl, refl)

block-IsWithin : IsWithin block
block-IsWithin =
    (append_all_accepts no_ipv6 request 1 default_options empty_block wire empty_block-new).0

-- The block is not sealed, has no error, and is whole.
seal_iff_example :
    ((seal no_ipv6 block).1 ≡ none)
    ↔ ((block.error ≡ none) × ((block.sealed ≡ true) ⊎ IsWhole no_ipv6 block.kind block))
seal_iff_example = seal_iff no_ipv6 block

seal-views_fit_example : length (seal no_ipv6 block).0.views ≤ max_header_fields_cap
seal-views_fit_example = seal-views_fit no_ipv6 block block-IsWithin block_seals.0 block_seals.1

block_authority :
    (is_request block.kind ≡ true) × (value_of block (codes ":authority") ≡ codes "h:443")
unfolding append_all append valid_pseudo valid_regular token valid_value valid_scheme
    parse_authority text_eq starts_with one_of find_field contains iequals
block_authority = (refl, refl)

all_views-host_example :
    All (Names (value_of block (codes ":authority"))) (all_views block)
    × (has_host (all_views block) ≡ true)
all_views-host_example = all_views-host block block_authority.0 (rw block_authority.1)

-- One cookie and one `host` in the views.
sealed_views :
    (seal no_ipv6 block).0.views
    ≡ record { name = codes "cookie"; value = codes "a=1; b=2" }
      ∷ record { name = codes "accept"; value = codes "*/*" }
      ∷ record { name = codes "host"; value = codes "h:443" }
      ∷ []
unfolding append_all append valid_pseudo valid_regular token valid_value valid_scheme
    parse_authority text_eq starts_with one_of find_field contains iequals seal validate_complete
    validate_kind complete_request same_authority combine_cookies normalize count_cookies all_views
    make_views collect_views seen_host write_field offset_of view_of join_cookies
sealed_views = refl
