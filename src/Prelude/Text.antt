-- ===== src/Prelude/Text.antt =====
-- The text operations of Rust's `str` that the programs call: `trim`, `split`, `splitn`, `lines` and
-- `parse`.
use Prim.Native.Char.{Char, code}
use Prim.Native.Nat.{ℕ, zero, suc, ◌+◌, ◌-◌, ◌*◌, ◌^◌}
use Prim.Native.String.{String}
use mathlib.Core.Path.{◌≡◌, refl}
use mathlib.Core.Bool.{Bool, ◌&&◌, ◌||◌}
use mathlib.Core.Option.{Option, none, some}
use mathlib.Core.List.{List, [], ◌∷◌}
use text.Mathlib.Text.{◌==◌}
use r2r_jev.Prelude.Tests.{ltb, leb, nat_eq, if◌then◌else◌}

-- `char::is_whitespace`
abbrev pub is_whitespace : ℕ → Bool
is_whitespace c =
    (leb 9 c && leb c 13)
    || nat_eq c 32
    || nat_eq c 133
    || nat_eq c 160
    || nat_eq c 5760
    || (leb 8192 c && leb c 8202)
    || nat_eq c 8232
    || nat_eq c 8233
    || nat_eq c 8239
    || nat_eq c 8287
    || nat_eq c 12288

abbrev pub trim_start : String → String
trim_start String.[] = ""
trim_start (String.◌∷◌ c s) =
    let rest = trim_start s in if is_whitespace (code c) then rest else String.◌∷◌ c s

-- A blank goes when all that follows it went.
abbrev keep_blank : Char → String → String
keep_blank c String.[] = if is_whitespace (code c) then "" else String.◌∷◌ c ""
keep_blank c (String.◌∷◌ d s) = String.◌∷◌ c (String.◌∷◌ d s)

abbrev pub trim_end : String → String
trim_end String.[] = ""
trim_end (String.◌∷◌ c s) = keep_blank c (trim_end s)

abbrev pub trim : String → String
trim s = trim_end (trim_start s)

-- A character in front of the first piece.
abbrev onto_first : Char → List String → List String
onto_first c [] = String.◌∷◌ c "" ∷ []
onto_first c (piece ∷ pieces) = String.◌∷◌ c piece ∷ pieces

-- `split`, by one character.
abbrev pub split : Char → String → List String
split sep String.[] = "" ∷ []
split sep (String.◌∷◌ c s) =
    let rest = split sep s in if nat_eq (code c) (code sep) then "" ∷ rest else onto_first c rest

-- `splitn`: the last of the pieces keeps its separators.
abbrev pub splitn : ℕ → Char → String → List String
splitn zero sep s = []
splitn (suc zero) sep s = s ∷ []
splitn (suc (suc n)) sep String.[] = "" ∷ []
splitn (suc (suc n)) sep (String.◌∷◌ c s) =
    let next = splitn (suc n) sep s in
    let same = splitn (suc (suc n)) sep s in
    if nat_eq (code c) (code sep) then "" ∷ next else onto_first c same

abbrev without_return : String → String
without_return String.[] = ""
without_return (String.◌∷◌ c String.[]) = if nat_eq (code c) 13 then "" else String.◌∷◌ c ""
without_return (String.◌∷◌ c (String.◌∷◌ d s)) = String.◌∷◌ c (without_return (String.◌∷◌ d s))

-- A line may end in a carriage return; after the last line feed there is no further line.
abbrev ended : List String → List String
ended [] = []
ended (line ∷ []) = if line == "" then [] else line ∷ []
ended (line ∷ next ∷ rest) = without_return line ∷ ended (next ∷ rest)

abbrev pub lines : String → List String
lines s = ended (split "\n" s)

abbrev is_digit : ℕ → Bool
is_digit c = leb 48 c && leb c 57

-- A number that no longer fits is an error, also before the last digit is read.
abbrev digits_onto : ℕ → Option ℕ → String → Option ℕ
digits_onto bound none s = none
digits_onto bound (some n) String.[] = some n
digits_onto bound (some n) (String.◌∷◌ c s) =
    let next = n * 10 + (code c - 48) in
    digits_onto bound (if is_digit (code c) && ltb next bound then some next else none) s

abbrev unsigned : ℕ → String → Option ℕ
unsigned bound s = if s == "" then none else digits_onto bound (some 0) s

-- `parse`, into an unsigned number below the bound: digits after at most one plus sign.
abbrev parse_unsigned : ℕ → String → Option ℕ
parse_unsigned bound String.[] = none
parse_unsigned bound (String.◌∷◌ c s) =
    if nat_eq (code c) 43 then unsigned bound s else unsigned bound (String.◌∷◌ c s)

unfoldable pub parse_u64 : String → Option ℕ
parse_u64 s = parse_unsigned (2 ^ 64) s

unfoldable pub parse_u32 : String → Option ℕ
parse_u32 s = parse_unsigned (2 ^ 32) s

unfoldable pub parse_u8 : String → Option ℕ
parse_u8 s = parse_unsigned (2 ^ 8) s

reads : parse_u64 "+042" ≡ some 42
unfolding parse_u64
reads = refl

too_large : parse_u64 "18446744073709551616" ≡ none
unfolding parse_u64
too_large = refl

pieces : splitn 3 "," "a,,b,c" ≡ "a" ∷ "" ∷ "b,c" ∷ []
pieces = refl

trimmed : trim "  a b " ≡ "a b"
trimmed = refl
