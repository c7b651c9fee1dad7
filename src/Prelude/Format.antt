-- ===== src/Prelude/Format.antt =====
-- `format!`, as the concatenation of its pieces.
use Prim.Native.Nat.{ℕ}
use Prim.Native.String.{String, ◌++◌}
use mathlib.Core.Path.{◌≡◌, refl}
use mathlib.Core.List.{List, [], ◌∷◌}
use text.Mathlib.TextLemmas.{append_cancel_left, append_cancel_right}
use r2r_jev.Prelude.Decimal.{pad, pad-injective}

abbrev pub format : List String → String
format [] = ""
format (s ∷ rest) = s ++ format rest

-- An id or a version is a fixed prefix before a padded number: the number can be read back.
pub format-pad_injective :
    (prefix : String) (w m n : ℕ)
    → format (prefix ∷ pad w m ∷ []) ≡ format (prefix ∷ pad w n ∷ [])
    → m ≡ n
format-pad_injective prefix w m n h = pad-injective w m n (
    append_cancel_right (pad w m) (pad w n) ""
      (append_cancel_left prefix (format (pad w m ∷ [])) (format (pad w n ∷ [])) h))

version_42 : format ("state-" ∷ pad 6 42 ∷ []) ≡ "state-000042"
unfolding pad
version_42 = refl

wide : pad 4 12345 ≡ "12345"
unfolding pad
wide = refl
