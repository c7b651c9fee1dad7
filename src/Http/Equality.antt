-- ===== src/Http/Equality.antt =====
-- src/bin/r2r-mcp-remote.rs: the comparison of a presented token with the configured one.
use Prim.Native.Char.{code}
use Prim.Native.Nat.{
  bit_or, bit_xor, max, digits, differ, bit_or-bitwise, bit_xor-bitwise, zero, suc, ◌≤◌,
}
use Prim.Native.String.{◌++◌ as ◌<>◌}
use Prim.Native.String.append
use text.Mathlib.TextEquality.{Char-path}
use r2r_jev.Prelude.{
  ℕ, ◌/◌, ◌%◌, ◌≡◌, refl, ap, ◌∙◌, String, List, [], ◌∷◌, ◌++◌, Option, none, some, true, ◌↔◌,
  arith, length,
}
use r2r_jev.Http.{
  encode, as_bytes, difference_of, constant_time_eq, authenticate, strip_prefix, token_matches,
}

abbrev or_digits : ℕ → ℕ → ℕ → ℕ
or_digits n a b = digits (λ b. b) max n a b

abbrev xor_digits : ℕ → ℕ → ℕ → ℕ
xor_digits n a b = digits (λ b. b) differ n a b

or_digits_zero : (n a b : ℕ) → a ≤ n → (or_digits n a b ≡ 0) ↔ ((a ≡ 0) × (b ≡ 0))
or_digits_zero zero a b h = ground arith
or_digits_zero (suc n) zero b h = ground arith
or_digits_zero (suc n) (suc a) b h =
    ground (arith, or_digits_zero n (suc a / 2) (b / 2) (omega arith))

bit_or-zero_iff : (a b : ℕ) → (bit_or a b ≡ 0) ↔ ((a ≡ 0) × (b ≡ 0))
bit_or-zero_iff a b = ground (arith, bit_or-bitwise a b, or_digits_zero a a b (omega arith))

differ_zero : (a b : ℕ) → (differ a b ≡ 0) ↔ (a ≡ b)
differ_zero zero b = ground arith
differ_zero (suc a) zero = ground arith
differ_zero (suc a) (suc b) = ground (arith, differ_zero a b)

xor_digits_zero : (n a b : ℕ) → a ≤ n → (xor_digits n a b ≡ 0) ↔ (a ≡ b)
xor_digits_zero zero a b h = ground arith
xor_digits_zero (suc n) zero b h = ground arith
xor_digits_zero (suc n) (suc a) b h =
    ground
      (arith, xor_digits_zero n (suc a / 2) (b / 2) (omega arith), differ_zero (suc a % 2) (b % 2))

bit_xor-zero_iff : (a b : ℕ) → (bit_xor a b ≡ 0) ↔ (a ≡ b)
bit_xor-zero_iff a b = ground (arith, bit_xor-bitwise a b, xor_digits_zero a a b (omega arith))

difference_of-zero_iff :
    (d : ℕ) (left right : List ℕ)
    → length left ≡ length right
    → (difference_of d left right ≡ 0) ↔ ((d ≡ 0) × (left ≡ right))
difference_of-zero_iff d [] [] h = ground arith
difference_of-zero_iff d [] (r ∷ right) h = absurd (omega arith)
difference_of-zero_iff d (l ∷ left) [] h = absurd (omega arith)
difference_of-zero_iff d (l ∷ left) (r ∷ right) h = ground (
  arith,
  difference_of-zero_iff (bit_or d (bit_xor l r)) left right (omega arith),
  bit_or-zero_iff d (bit_xor l r),
  bit_xor-zero_iff l r,
)

cong_length : (left right : List ℕ) → left ≡ right → length left ≡ length right
cong_length left right e = ap length e

-- The comparison that does not stop at the first difference accepts two byte strings exactly when
-- they are the same.
pub constant_time_eq_iff :
    (left right : List ℕ) → (constant_time_eq left right ≡ true) ↔ (left ≡ right)
unfolding constant_time_eq
constant_time_eq_iff left right =
    ground (arith, difference_of-zero_iff 0 left right, cong_length left right)

encode-append : (c d : ℕ) (s t : List ℕ) → encode c ++ s ≡ encode d ++ t → (c ≡ d) × (s ≡ t)
encode-append c d s t e = ground arith

as_bytes-injective : (s t : String) → as_bytes s ≡ as_bytes t → s ≡ t
as_bytes-injective String.[] String.[] e = refl
as_bytes-injective String.[] (String.◌∷◌ d t) e = ground arith
as_bytes-injective (String.◌∷◌ c s) String.[] e = ground arith
as_bytes-injective (String.◌∷◌ c s) (String.◌∷◌ d t) e =
    let same = encode-append (code c) (code d) (as_bytes s) (as_bytes t) e in
    cc (Char-path c d same.0, as_bytes-injective s t same.1)

strip_prefix-append : (p t : String) → strip_prefix (p <> t) p ≡ some t
strip_prefix-append String.[] t = simp (append.nil)
strip_prefix-append (String.◌∷◌ d p) t = ground (arith, append.cons d p t, strip_prefix-append p t)

strip_prefix-some : (s p : String) {t : String} → strip_prefix s p ≡ some t → s ≡ p <> t
strip_prefix-some s String.[] {t} e = cc (append.nil t)
strip_prefix-some String.[] (String.◌∷◌ d p) e = cc
strip_prefix-some (String.◌∷◌ c s) (String.◌∷◌ d p) {t} e =
    ground (arith, append.cons d p t, Char-path c d, strip_prefix-some s p {t = t})

as_bytes_refl : (s : String) → constant_time_eq (as_bytes s) (as_bytes s) ≡ true
as_bytes_refl s = (constant_time_eq_iff (as_bytes s) (as_bytes s)).1 refl

token_of :
    (token : Option String) (bearer_token : String)
    → token_matches bearer_token token ≡ true
    → token ≡ some bearer_token
token_of none bearer_token e = ground arith
token_of (some token) bearer_token e = ap some (
    as_bytes-injective token bearer_token
      ((constant_time_eq_iff (as_bytes token) (as_bytes bearer_token)).0 e))

matches_of :
    (p bearer_token value : String)
    → value ≡ p <> bearer_token
    → token_matches bearer_token (strip_prefix value p) ≡ true
matches_of p bearer_token value e =
    ap (λ v. token_matches bearer_token (strip_prefix v p)) e
    ∙ (ap (token_matches bearer_token) (strip_prefix-append p bearer_token)
        ∙ as_bytes_refl bearer_token)

some-injective : {s t : String} → some s ≡ some t → s ≡ t
some-injective e = cc

-- A request is authenticated exactly when its `Authorization` header is readable text, namely the
-- word `Bearer`, a space, and the configured token: no other text is let through, and no comparison
-- of encoded bytes is fooled.
pub authenticate_iff :
    (bearer_token : String) (header_value : Option String)
    → (authenticate bearer_token header_value ≡ true)
      ↔ (header_value ≡ some ("Bearer " <> bearer_token))
unfolding authenticate
authenticate_iff bearer_token none = ground arith
authenticate_iff bearer_token (some value) = (
  λ accepted. ap some (
      strip_prefix-some value "Bearer "
        (token_of (strip_prefix value "Bearer ") bearer_token accepted)),
  λ e. matches_of "Bearer " bearer_token value (some-injective e),
)
