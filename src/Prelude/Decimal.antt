-- ===== src/Prelude/Decimal.antt =====
-- Decimal printing, `{}` and `{:0w}` of the formatting macros: no two numbers print alike.
use Prim.Native.Char.{Char, code}
use Prim.Native.Nat.{ℕ, zero, suc, ◌+◌, ◌-◌, ◌*◌, ◌/◌, ◌%◌, ◌<◌}
use Prim.Native.String.{String, count, [], ◌∷◌}
use mathlib.Core.Path.{◌≡◌, refl, sym, ap, ◌∙◌}
use mathlib.Core.Logic.{inl, inr}
use native.Mathlib.Omega.{arith}
use r2r_jev.Prelude.Tests.{ltb, Bool-cases, if◌then◌else◌}

digit : ℕ → Char
digit zero = "0"
digit (suc zero) = "1"
digit (suc (suc zero)) = "2"
digit (suc (suc (suc zero))) = "3"
digit (suc (suc (suc (suc zero)))) = "4"
digit (suc (suc (suc (suc (suc zero))))) = "5"
digit (suc (suc (suc (suc (suc (suc zero)))))) = "6"
digit (suc (suc (suc (suc (suc (suc (suc zero))))))) = "7"
digit (suc (suc (suc (suc (suc (suc (suc (suc zero)))))))) = "8"
digit _ = "9"

digit_value : (d : ℕ) → d < 10 → code (digit d) - 48 ≡ d
unfolding digit
digit_value zero h = refl
digit_value (suc zero) h = refl
digit_value (suc (suc zero)) h = refl
digit_value (suc (suc (suc zero))) h = refl
digit_value (suc (suc (suc (suc zero)))) h = refl
digit_value (suc (suc (suc (suc (suc zero))))) h = refl
digit_value (suc (suc (suc (suc (suc (suc zero)))))) h = refl
digit_value (suc (suc (suc (suc (suc (suc (suc zero))))))) h = refl
digit_value (suc (suc (suc (suc (suc (suc (suc (suc zero)))))))) h = refl
digit_value (suc (suc (suc (suc (suc (suc (suc (suc (suc zero))))))))) h = refl
digit_value (suc (suc (suc (suc (suc (suc (suc (suc (suc (suc n)))))))))) h = absurd (omega arith)

-- The digits of `n` in front of `rest`; `n + 1` rounds are enough.
digits : ℕ → ℕ → String → String
digits zero n rest = rest
digits (suc f) n rest =
    let more = digits f (n / 10) (digit (n % 10) ∷ rest) in
    if ltb n 10 then digit n ∷ rest else more

-- `{}`
unfoldable pub show : ℕ → String
unfolding digits digit
show n = digits (suc n) n []

zeros : ℕ → String → String
zeros zero s = s
zeros (suc k) s = "0" ∷ zeros k s

-- `{:0w}`
unfoldable pub pad : ℕ → ℕ → String
unfolding show zeros
pad w n = zeros (w - count (show n)) (show n)

-- The number that a run of digits denotes, read from the left onto `acc`.
value : ℕ → String → ℕ
value acc [] = acc
value acc (c ∷ s) = value (acc * 10 + (code c - 48)) s

value-digits : (f n : ℕ) (rest : String) → n < f → value 0 (digits f n rest) ≡ value n rest
unfolding digits value
value-digits zero n rest h = absurd (omega arith)
value-digits (suc f) n rest h = elim (Bool-cases (ltb n 10)) [
  | inl small ↦ rw small (ap (λ k. value k rest) (omega (arith, digit_value n (ground arith))))
  | inr large ↦ rw large (
      value-digits f (n / 10) (digit (n % 10) ∷ rest) (ground arith)
      ∙ ap (λ k. value k rest) (omega (arith, digit_value (n % 10) (omega arith))))
]

value-zeros : (k : ℕ) (s : String) → value 0 (zeros k s) ≡ value 0 s
unfolding zeros value
value-zeros zero s = refl
value-zeros (suc k) s = value-zeros k s

value-pad : (w n : ℕ) → value 0 (pad w n) ≡ n
unfolding pad show value
value-pad w n = value-zeros (w - count (show n)) (show n) ∙ value-digits (suc n) n [] (omega arith)

-- Padding does not make two numbers print alike.
pub pad-injective : (w m n : ℕ) → pad w m ≡ pad w n → m ≡ n
pad-injective w m n h = sym (value-pad w m) ∙ ap (value 0) h ∙ value-pad w n
