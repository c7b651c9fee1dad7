-- ===== src/Prelude/Outcome.antt =====
-- A call that may fail: `Err` carries its message, and a failed `assert!` unwinds.
use Prim.Native.String.{String}
use mathlib.Core.Path.{◌≡◌, refl}
use mathlib.Core.Bool.{Bool, true, false}

pub data Result {α} (X : Type α) : Type α where
  panic : Result X
  err : (message : String) → Result X
  ok : (value : X) → Result X

-- `assert!(condition)`.
abbrev pub assert : (condition : Bool) → Result (Unit {0})
assert false = panic
assert true = ok tt

infixl 5 ◌>>=◌ ◌>>◌
abbrev pub ◌>>=◌ {α β} : {X : Type α} {Y : Type β} → Result X → (next : X → Result Y) → Result Y
panic >>= next = panic
err message >>= next = err message
ok value >>= next = next value

abbrev pub ◌>>◌ {β} : {Y : Type β} → Result (Unit {0}) → (rest : Result Y) → Result Y
first >> rest = first >>= λ done. rest

module _ {α β} {X : Type α} {Y : Type β} where
  -- The value of a successful first step.
  pub >>=-eq-ok :
      (first : Result X) (next : X → Result Y) {y : Y}
      → (first >>= next) ≡ ok y
      → (x : X) × (first ≡ ok x) × (next x ≡ ok y)
  >>=-eq-ok panic next e = cc
  >>=-eq-ok (err message) next e = cc
  >>=-eq-ok (ok value) next e = (value, refl, e)

  -- A step that succeeds may be followed by anything that does as well after its value.
  pub >>=-mono :
      (first : Result X) (next other : X → Result Y) (y : Y) (r : Result Y)
      → (first >>= next) ≡ ok y
      → ((x : X) → next x ≡ ok y → other x ≡ r)
      → (first >>= other) ≡ r
  >>=-mono panic next other y r e step = cc
  >>=-mono (err message) next other y r e step = cc
  >>=-mono (ok value) next other y r e step = step value e

pub ok-injective {α} : {X : Type α} {x y : X} → ◌≡◌ {A = Result X} (ok x) (ok y) → x ≡ y
ok-injective same = cc
