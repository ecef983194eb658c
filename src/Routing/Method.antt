-- ===== src/Routing/Method.antt =====
-- HttpMethod of src/core/HttpTypes.h and the method masks of src/core/Router.cpp.
use hical.Base.{
  zero, suc, sym, bit_or, ◌||◌, digit-bit_or, zero-digit, ℕ, ◌-◌, ◌^◌, ◌<◌, ◌≡◌, refl, Bool, true,
  not, ◌&&◌, List, [], ◌∷◌, ◌++◌, Text, codes, ◌==◌, if◌then◌else◌, is_empty, bit_and, digit, arith,
  ap, ◌∙◌, digit-pow, all_below, all_below_sound, ==_iff, digit-bit_and, bit_and-pow, false,
}

pub data HttpMethod : Type 0 where
  h_get h_post h_put h_delete h_patch h_head h_options h_unknown : HttpMethod

-- `static_cast<unsigned>(method)`
abbrev pub index : HttpMethod → ℕ
index HttpMethod.h_get = 0
index HttpMethod.h_post = 1
index HttpMethod.h_put = 2
index HttpMethod.h_delete = 3
index HttpMethod.h_patch = 4
index HttpMethod.h_head = 5
index HttpMethod.h_options = 6
index HttpMethod.h_unknown = 7

abbrev pub same_method : HttpMethod → HttpMethod → Bool
same_method m n = index m == index n

abbrev pub http_method_to_string : HttpMethod → Text
http_method_to_string HttpMethod.h_get = codes "GET"
http_method_to_string HttpMethod.h_post = codes "POST"
http_method_to_string HttpMethod.h_put = codes "PUT"
http_method_to_string HttpMethod.h_delete = codes "DELETE"
http_method_to_string HttpMethod.h_patch = codes "PATCH"
http_method_to_string HttpMethod.h_head = codes "HEAD"
http_method_to_string HttpMethod.h_options = codes "OPTIONS"
http_method_to_string HttpMethod.h_unknown = codes "UNKNOWN"

-- kMethods
abbrev pub k_methods : List HttpMethod
k_methods =
    HttpMethod.h_get ∷ HttpMethod.h_post ∷ HttpMethod.h_put ∷ HttpMethod.h_delete
    ∷ HttpMethod.h_patch ∷ HttpMethod.h_head ∷ HttpMethod.h_options ∷ []

-- `1u << static_cast<unsigned>(method)`, at most 2 ^ 7.
abbrev pub method_bit : HttpMethod → ℕ
method_bit m = 2 ^ index m

-- `~x` on a uint32_t.
abbrev pub bit_not32 : ℕ → ℕ
bit_not32 x = 4294967295 - x

-- The loop of allowedMethodsFromMask, over the methods that are left and the text so far.
unfoldable pub add_allowed : ℕ → List HttpMethod → Text → Text
add_allowed mask [] out = out
add_allowed mask (m ∷ ms) out =
    let skipped = add_allowed mask ms out in
    let added =
      add_allowed mask ms
        ((if is_empty out then out else out ++ codes ", ") ++ http_method_to_string m) in
    if bit_and mask (method_bit m) == 0 then skipped else added

unfoldable pub allowed_methods_from_mask : ℕ → Text
unfolding add_allowed
allowed_methods_from_mask mask = add_allowed mask k_methods []

-- Whether a mask has a method.
abbrev pub has_method : HttpMethod → ℕ → Bool
has_method m mask = digit (index m) mask

pub index_lt : (m : HttpMethod) → index m < 8
index_lt HttpMethod.h_get = omega arith
index_lt HttpMethod.h_post = omega arith
index_lt HttpMethod.h_put = omega arith
index_lt HttpMethod.h_delete = omega arith
index_lt HttpMethod.h_patch = omega arith
index_lt HttpMethod.h_head = omega arith
index_lt HttpMethod.h_options = omega arith
index_lt HttpMethod.h_unknown = omega arith

pub has_method-method_bit : (m n : HttpMethod) → has_method m (method_bit n) ≡ same_method m n
has_method-method_bit m n = digit-pow (index m) (index n)

-- The complement of one bit has every other one.
abbrev bool_code : Bool → ℕ
bool_code true = 1
bool_code false = 0

bool_code_injective : (a b : Bool) → bool_code a ≡ bool_code b → a ≡ b
bool_code_injective true true h = refl
bool_code_injective true false h = absurd (omega arith)
bool_code_injective false true h = absurd (omega arith)
bool_code_injective false false h = refl

abbrev complement_row : ℕ → ℕ → Bool
complement_row j k = bool_code (digit k (bit_not32 (2 ^ j))) == bool_code (not (k == j))

complement_table : all_below 8 (λ j. all_below 8 (complement_row j)) ≡ true
complement_table = refl

digit-complement : (k j : ℕ) → k < 8 → j < 8 → digit k (bit_not32 (2 ^ j)) ≡ not (k == j)
digit-complement k j p q = bool_code_injective (digit k (bit_not32 (2 ^ j))) (not (k == j)) (
    (==_iff (bool_code (digit k (bit_not32 (2 ^ j)))) (bool_code (not (k == j)))).0 (
      all_below_sound 8 (complement_row j) k
        (all_below_sound 8 (λ j. all_below 8 (complement_row j)) j complement_table q) p))

pub has_method-others :
    (m n : HttpMethod) (mask : ℕ)
    → has_method m (bit_and mask (bit_not32 (method_bit n)))
      ≡ (has_method m mask && not (same_method m n))
has_method-others m n mask =
    digit-bit_and (index m) mask (bit_not32 (method_bit n))
    ∙ ap (λ b. has_method m mask && b)
        (digit-complement (index m) (index n) (index_lt m) (index_lt n))

-- What `(mask & methodBit(m)) == 0` tests.
pub mask_test :
    (m : HttpMethod) (mask : ℕ) → (bit_and mask (method_bit m) == 0) ≡ not (has_method m mask)
mask_test m mask = bit_and-pow (index m) mask

abbrev of_index : ℕ → HttpMethod
of_index zero = HttpMethod.h_get
of_index (suc zero) = HttpMethod.h_post
of_index (suc (suc zero)) = HttpMethod.h_put
of_index (suc (suc (suc zero))) = HttpMethod.h_delete
of_index (suc (suc (suc (suc zero)))) = HttpMethod.h_patch
of_index (suc (suc (suc (suc (suc zero))))) = HttpMethod.h_head
of_index (suc (suc (suc (suc (suc (suc zero)))))) = HttpMethod.h_options
of_index (suc (suc (suc (suc (suc (suc (suc n))))))) = HttpMethod.h_unknown

of_index-index : (m : HttpMethod) → of_index (index m) ≡ m
of_index-index HttpMethod.h_get = refl
of_index-index HttpMethod.h_post = refl
of_index-index HttpMethod.h_put = refl
of_index-index HttpMethod.h_delete = refl
of_index-index HttpMethod.h_patch = refl
of_index-index HttpMethod.h_head = refl
of_index-index HttpMethod.h_options = refl
of_index-index HttpMethod.h_unknown = refl

pub same_method_sound : (m n : HttpMethod) → same_method m n ≡ true → m ≡ n
same_method_sound m n h =
    sym (of_index-index m) ∙ ap of_index ((==_iff (index m) (index n)).0 h) ∙ of_index-index n

pub same_method_refl : (m : HttpMethod) → same_method m m ≡ true
same_method_refl m = ground arith

pub has_method-bit_or :
    (m : HttpMethod) (a b : ℕ) → has_method m (bit_or a b) ≡ (has_method m a || has_method m b)
has_method-bit_or m a b = digit-bit_or (index m) a b

pub has_method-zero : (m : HttpMethod) → has_method m 0 ≡ false
has_method-zero m = zero-digit (index m)

pub has_method-insert :
    (m n : HttpMethod) (mask : ℕ)
    → has_method m (bit_or mask (method_bit n)) ≡ (has_method m mask || same_method m n)
has_method-insert m n mask =
    has_method-bit_or m mask (method_bit n)
    ∙ ap (λ b. has_method m mask || b) (has_method-method_bit m n)
