-- ===== src/Prelude/Assoc.antt =====
-- A `HashMap` as an association list, over an equality test that agrees with equality.
use Prim.Native.String.{String}
use mathlib.Core.Path.{◌≡◌, refl, subst}
use mathlib.Core.Logic.{◌↔◌, inl, inr}
use mathlib.Core.Bool.{Bool, true}
use mathlib.Core.Option.{Option, none, some}
use mathlib.Core.List.{List, [], ◌∷◌}
use native.Mathlib.Omega.{arith}
use text.Mathlib.Text.{◌==◌}
use text.Mathlib.TextEquality.{eq_iff}
use r2r_jev.Prelude.Tests.{Bool-cases, if◌then◌else◌}

pub record Eq {ℓ} (K : Type ℓ) : Type ℓ where
  pub beq : K → K → Bool
  pub beq_iff : (a b : K) → (beq a b ≡ true) ↔ (a ≡ b)

instance abbrev pub text_key : Eq String
text_key = record { beq = ◌==◌; beq_iff = eq_iff }

abbrev pub Assoc {ℓ κ} : Type ℓ → Type κ → Type (ℓ ⊔ κ)
Assoc K V = List (K × V)

module _ {ℓ κ} {K : Type ℓ} {V : Type κ} ⦃keys : Eq K⦄ where
  unfoldable pub lookup : K → Assoc K V → Option V
  lookup key [] = none
  lookup key (entry ∷ rest) = if keys.beq entry.0 key then some entry.1 else lookup key rest

  -- `entry(key).or_insert_with(|| fresh)`, read without inserting.
  unfoldable pub get_or : K → V → Assoc K V → V
  get_or key fresh entries = elim (lookup key entries) [ some value ↦ value | none ↦ fresh ]

  -- The value replaces the one at the first entry of its key, or stands last.
  unfoldable pub insert : K → V → Assoc K V → Assoc K V
  insert key value [] = (key, value) ∷ []
  insert key value (entry ∷ rest) =
      let later = insert key value rest in
      if keys.beq entry.0 key then (key, value) ∷ rest else entry ∷ later

  pub get_or_of_lookup :
      (key : K) (fresh value : V) (entries : Assoc K V)
      → lookup key entries ≡ some value
      → get_or key fresh entries ≡ value
  unfolding get_or
  get_or_of_lookup key fresh value entries h = ground (arith, h)

  pub lookup-insert :
      (key other : K) (value : V) (entries : Assoc K V)
      → lookup other (insert key value entries)
        ≡ (if keys.beq key other then some value else lookup other entries)
  unfolding lookup insert
  lookup-insert key other value [] = refl
  lookup-insert key other value (entry ∷ rest) =
      let later = lookup-insert key other value rest in
      ground
        (arith, later, keys.beq_iff key other, keys.beq_iff entry.0 key, keys.beq_iff entry.0 other)

  pub get_or-insert :
      (key other : K) (value fresh : V) (entries : Assoc K V)
      → get_or other fresh (insert key value entries)
        ≡ (if keys.beq key other then value else get_or other fresh entries)
  unfolding get_or
  get_or-insert key other value fresh entries =
      ground (arith, lookup-insert key other value entries)

module _ {ℓ κ} {K : Type ℓ} {V : Type κ} ⦃e : Eq K⦄ where
  -- No key stands twice.
  abbrev pub Unique : Assoc K V → Type (ℓ ⊔ κ)
  Unique [] = Unit
  Unique ((k, v) ∷ m) = (lookup k m ≡ none) × Unique m

  pub insert-Unique : (k : K) (v : V) (m : Assoc K V) → Unique m → Unique (insert k v m)
  unfolding insert lookup
  insert-Unique k v [] u = (refl, tt)
  insert-Unique k v ((j, w) ∷ m) u = elim (Bool-cases (e.beq j k)) [
    | inl same ↦ rw same (subst (λ (i : K). lookup i m ≡ none) ((e.beq_iff j k).0 same) u.0, u.1)
    | inr other ↦ rw other (
      rw (lookup-insert k j v m) (ground (arith, e.beq_iff j k, e.beq_iff k j)),
      insert-Unique k v m u.1,
    )
  ]

  -- The first entry is found, and what is found further on was found before.
  pub lookup_head : (k : K) (v : V) (m : Assoc K V) → lookup k ((k, v) ∷ m) ≡ some v
  unfolding lookup
  lookup_head k v m = rw ((e.beq_iff k k).1 refl)

  pub lookup_tail :
      (j : K) (w : V) (m : Assoc K V) (k : K) (v : V)
      → Unique ((j, w) ∷ m)
      → lookup k m ≡ some v
      → lookup k ((j, w) ∷ m) ≡ some v
  unfolding lookup
  lookup_tail j w m k v u h = elim (Bool-cases (e.beq j k)) [
    | inl same ↦ absurd (cc (h, subst (λ (i : K). lookup i m ≡ none) ((e.beq_iff j k).0 same) u.0))
    | inr other ↦ rw other h
  ]
