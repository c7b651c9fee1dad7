-- ===== src/Store/Memory/Versions.antt =====
-- src/store/memory.rs: state versions belong to one domain and count up by one.
use r2r_jev.Prelude.{
  ℕ, ◌+◌, ◌<◌, ◌^◌, List, [], ◌∷◌, ◌++◌, Option, none, some, true, false, ◌≡◌, ◌≢◌, refl, ap, ◌∙◌,
  sym, arith, find, inc64, inc64-eq_add, if◌then◌else◌, Bool-cases, inl, inr,
}
use r2r_jev.Prelude.Decimal.{pad}
use r2r_jev.Prelude.Format.{format-pad_injective}
use r2r_jev.Store.{DomainKey, key_eq, key_eq_iff, key_eq_refl}
use r2r_jev.Store.Memory.{
  DomainStateVersion, behind, MemoryEventStore, state_version, version_or_zero, state_counter,
  current_state_version, advance_entry, advanced, advance_state_version,
}

abbrev counter : DomainKey → List DomainStateVersion → ℕ
counter d vs = version_or_zero (find (λ e. key_eq e.domain d) vs)

-- What `advance_entry` reports, as a statement about the counters.
abbrev Advances :
    DomainKey → List DomainStateVersion → Option (ℕ × List DomainStateVersion) → Type 0
Advances d vs none = (find (λ e. key_eq e.domain d) vs ≡ none)
Advances d vs (some (n, ws)) =
    (n ≡ inc64 (counter d vs))
    × ((k : DomainKey) → counter k ws ≡ (if key_eq d k then n else counter k vs))

at_head :
    (d : DomainKey) (e : DomainStateVersion) (vs : List DomainStateVersion)
    → key_eq e.domain d ≡ true
    → Advances d (e ∷ vs) (some (inc64 e.version, record e { version = inc64 e.version } ∷ vs))
at_head d e vs h = (
  ground arith,
  λ k.
      let same : key_eq e.domain k ≡ key_eq d k =
        ap (λ (x : DomainKey). key_eq x k) ((key_eq_iff e.domain d).0 h) in
      ground arith,
)

behind_head :
    (d : DomainKey) (e : DomainStateVersion) (vs : List DomainStateVersion)
    (o : Option (ℕ × List DomainStateVersion))
    → key_eq e.domain d ≡ false
    → Advances d vs o
    → Advances d (e ∷ vs) (behind e o)
behind_head d e vs none h a = ground arith
behind_head d e vs (some (n, ws)) h a = (
  ground arith,
  λ k. ground (arith, a.1 k, key_eq_iff e.domain k, key_eq_iff d k, key_eq_iff e.domain d),
)

advance_entry_lem :
    (d : DomainKey) (vs : List DomainStateVersion) → Advances d vs (advance_entry d vs)
unfolding advance_entry
advance_entry_lem d [] = refl
advance_entry_lem d (e ∷ vs) = elim (Bool-cases (key_eq e.domain d)) [
  | inl h ↦ rw h (at_head d e vs h)
  | inr h ↦ rw h (behind_head d e vs (advance_entry d vs) h (advance_entry_lem d vs))
]

counter-push :
    (d k : DomainKey) (vs : List DomainStateVersion)
    → find (λ e. key_eq e.domain d) vs ≡ none
    → counter k (vs ++ record { domain = d; version = 1 } ∷ [])
      ≡ (if key_eq d k then 1 else counter k vs)
counter-push d k [] h = ground arith
counter-push d k (e ∷ vs) h =
    ground
      (arith, counter-push d k vs, key_eq_iff e.domain k, key_eq_iff d k, key_eq_iff e.domain d)

advanced_lem :
    (s : MemoryEventStore) (d : DomainKey) (o : Option (ℕ × List DomainStateVersion))
    → Advances d s.state_versions o
    → ((advanced s d o).0 ≡ state_version (inc64 (state_counter s d)))
      × ((k : DomainKey)
          → state_counter (advanced s d o).1 k
            ≡ (if key_eq d k then inc64 (state_counter s d) else state_counter s k))
unfolding state_counter
advanced_lem s d (some (n, ws)) a = (ap state_version a.0, λ k. ground (arith, a.1 k))
advanced_lem s d none a =
    let first : inc64 (state_counter s d) ≡ 1 =
      ap (λ o. inc64 (version_or_zero o)) a ∙ (unfold inc64 in refl) in
    (
      unfold pad in ap state_version (sym first),
      λ k.
          counter-push d k s.state_versions a
          ∙ ap (λ (n : ℕ). if key_eq d k then n else state_counter s k) (sym first),
    )

advanced_frame :
    (s : MemoryEventStore) (d : DomainKey) (o : Option (ℕ × List DomainStateVersion))
    → (advanced s d o).1 ≡ record s { state_versions = (advanced s d o).1.state_versions }
advanced_frame s d none = refl
advanced_frame s d (some (n, versions)) = refl

-- Advancing a domain writes nothing but the versions.
pub advance_state_version_frame :
    (s : MemoryEventStore) (d : DomainKey)
    → (advance_state_version s d).1
      ≡ record s { state_versions = (advance_state_version s d).1.state_versions }
unfolding advance_state_version
advance_state_version_frame s d = advanced_frame s d (advance_entry d s.state_versions)

-- Advancing a domain returns the version after its current one, makes that its current version, and
-- leaves the version of every other domain alone.
pub advance_state_version_exact :
    (s : MemoryEventStore) (d : DomainKey)
    → ((advance_state_version s d).0 ≡ state_version (inc64 (state_counter s d)))
      × ((k : DomainKey)
          → state_counter (advance_state_version s d).1 k
            ≡ (if key_eq d k then inc64 (state_counter s d) else state_counter s k))
unfolding advance_state_version
advance_state_version_exact s d = advanced_lem s d _ (advance_entry_lem d s.state_versions)

-- Versions print injectively, so before the counter of the domain reaches its bound the current
-- version never is one that it had before.
pub current_state_version-ne :
    (s : MemoryEventStore) (d : DomainKey)
    → state_counter s d + 1 < 2 ^ 64
    → current_state_version (advance_state_version s d).1 d ≢ current_state_version s d
unfolding current_state_version
current_state_version-ne s d b e =
    let same : state_counter (advance_state_version s d).1 d ≡ state_counter s d =
      format-pad_injective "state-" 6 _ _ e in
    let next : state_counter (advance_state_version s d).1 d ≡ inc64 (state_counter s d) =
      rw (key_eq_refl d) at ((advance_state_version_exact s d).1 d) in
    omega (arith, same, next, inc64-eq_add (state_counter s d) b)
