-- ===== src/Store/Memory/Numbering.antt =====
-- src/store/memory.rs: the ids that the store gives, and what is found under them.
use r2r_jev.Prelude.{
  ℕ, ◌+◌, ◌<◌, ◌≤◌, ◌^◌, String, List, [], ◌∷◌, ◌++◌, none, some, Bool, subst, ◌≡◌, refl, sym, ap,
  ◌∙◌, arith, find, find-append_none, find-append_skip, Bool-cases, inl, inr, if◌then◌else◌, eq_iff,
  inc64-eq_add, ◌==◌, text_ne_of,
}
use r2r_jev.Prelude.Decimal.{pad}
use r2r_jev.Prelude.Format.{format, format-pad_injective}
use r2r_jev.Store.{StoredEvent, StoredDecision, StoredOutcome}
use r2r_jev.Store.Memory.{
  MemoryEventStore, event_id, decision_id, outcome_id, next_event_id, record_event,
  next_decision_id, record_decision, find_decision, next_outcome_id, record_outcome,
}

module _ {A : Type 0} (id_of : A → String) (prefix : String) where
  -- Every item has an id of the prefix and a number up to `n`.
  abbrev pub Numbered : ℕ → List A → Type 0
  Numbered n [] = Unit
  Numbered n (x ∷ xs) =
      ((i : ℕ) × (i ≤ n) × (id_of x ≡ format (prefix ∷ pad 6 i ∷ []))) × Numbered n xs

  abbrev has : String → A → Bool
  has id x = id_of x == id

  pub find_fresh :
      (n m : ℕ) (xs : List A)
      → n < m
      → Numbered n xs
      → find (has (format (prefix ∷ pad 6 m ∷ []))) xs ≡ none
  find_fresh n m [] h w = refl
  find_fresh n m (x ∷ xs) h w =
      let ((i, low, named), rest) = w in
      let other = text_ne_of (id_of x) (format (prefix ∷ pad 6 m ∷ [])) (λ same.
        let clash : i ≡ m = format-pad_injective prefix 6 i m (sym named ∙ same) in
        omega (arith, clash, low, h)) in
      rw other (find_fresh n m xs h rest)

  pub Numbered-weaken : (n m : ℕ) (xs : List A) → n ≤ m → Numbered n xs → Numbered m xs
  Numbered-weaken n m [] h w = tt
  Numbered-weaken n m (x ∷ xs) h w =
      let ((i, low, named), rest) = w in
      ((i, omega (arith, low, h), named), Numbered-weaken n m xs h rest)

  pub Numbered-append_one :
      (n : ℕ) (xs : List A) (x : A)
      → Numbered n xs
      → id_of x ≡ format (prefix ∷ pad 6 (n + 1) ∷ [])
      → Numbered (n + 1) (xs ++ x ∷ [])
  Numbered-append_one n [] x w h = ((n + 1, omega arith, h), tt)
  Numbered-append_one n (y ∷ xs) x w h =
      let ((i, low, named), rest) = w in
      ((i, omega (arith, low), named), Numbered-append_one n xs x rest h)

-- The ids in the store are ones that its counters have given.
pub record IsNumbered (s : MemoryEventStore) : Type 0 where
  pub events : Numbered (λ (e : StoredEvent). e.event_id) "event-" s.event_counter s.events
  pub decisions :
      Numbered (λ (d : StoredDecision). d.decision_id) "decision-" s.decision_counter s.decisions
  pub outcomes :
      Numbered (λ (o : StoredOutcome). o.outcome_id) "outcome-" s.outcome_counter s.outcomes

-- What is recorded as decision `d` under the next id.
abbrev pub with_decision : MemoryEventStore → StoredDecision → MemoryEventStore
with_decision s d = record_decision (next_decision_id s).1 d

abbrev pub with_event : MemoryEventStore → StoredEvent → MemoryEventStore
with_event s e = record_event (next_event_id s).1 e

abbrev pub with_outcome : MemoryEventStore → StoredOutcome → MemoryEventStore
with_outcome s o = record_outcome (next_outcome_id s).1 o

pub with_decision-IsNumbered :
    (s : MemoryEventStore) (d : StoredDecision)
    → s.decision_counter + 1 < 2 ^ 64
    → d.decision_id ≡ (next_decision_id s).0
    → IsNumbered s
    → IsNumbered (with_decision s d)
unfolding record_decision next_decision_id
with_decision-IsNumbered s d b h w = record {
  events = w.events;
  decisions = rw (inc64-eq_add s.decision_counter b) (
      Numbered-append_one (λ (d : StoredDecision). d.decision_id) "decision-" s.decision_counter
        s.decisions d w.decisions (h ∙ ap decision_id (inc64-eq_add s.decision_counter b)));
  outcomes = w.outcomes;
}

pub with_event-IsNumbered :
    (s : MemoryEventStore) (e : StoredEvent)
    → s.event_counter + 1 < 2 ^ 64
    → e.event_id ≡ (next_event_id s).0
    → IsNumbered s
    → IsNumbered (with_event s e)
unfolding record_event next_event_id
with_event-IsNumbered s e b h w = record {
  events = rw (inc64-eq_add s.event_counter b) (
      Numbered-append_one (λ (e : StoredEvent). e.event_id) "event-" s.event_counter s.events e
        w.events (h ∙ ap event_id (inc64-eq_add s.event_counter b)));
  decisions = w.decisions;
  outcomes = w.outcomes;
}

pub with_outcome-IsNumbered :
    (s : MemoryEventStore) (o : StoredOutcome)
    → s.outcome_counter + 1 < 2 ^ 64
    → o.outcome_id ≡ (next_outcome_id s).0
    → IsNumbered s
    → IsNumbered (with_outcome s o)
unfolding record_outcome next_outcome_id
with_outcome-IsNumbered s o b h w = record {
  events = w.events;
  decisions = w.decisions;
  outcomes = rw (inc64-eq_add s.outcome_counter b) (
      Numbered-append_one (λ (o : StoredOutcome). o.outcome_id) "outcome-" s.outcome_counter
        s.outcomes o w.outcomes (h ∙ ap outcome_id (inc64-eq_add s.outcome_counter b)));
}

-- In a store whose ids are numbered and whose decision counter is below its bound: the next decision
-- id is unknown; and once a decision is recorded under it, a lookup of any id gives what it gave
-- before, except that the new id gives the new decision.
pub find-with_decision :
    (s : MemoryEventStore) (d : StoredDecision)
    → IsNumbered s
    → s.decision_counter + 1 < 2 ^ 64
    → d.decision_id ≡ (next_decision_id s).0
    → (find_decision s d.decision_id ≡ none)
      × ((id : String)
          → find_decision (with_decision s d) id
            ≡ (if d.decision_id == id then some d else find_decision s id))
unfolding find_decision record_decision next_decision_id
find-with_decision s d w b h =
    let named : d.decision_id ≡ decision_id (s.decision_counter + 1) =
      h ∙ ap decision_id (inc64-eq_add s.decision_counter b) in
    let fresh : find_decision s d.decision_id ≡ none = rw named (
      find_fresh (λ (d : StoredDecision). d.decision_id) "decision-" s.decision_counter
        (s.decision_counter + 1) s.decisions (omega arith) w.decisions) in
    (
      fresh,
      λ id. elim (Bool-cases (d.decision_id == id)) [
        | inl same ↦
            let here : d.decision_id ≡ id = (eq_iff d.decision_id id).0 same in
            rw same (
              find-append_none (λ x. x.decision_id == id) s.decisions d
                (subst (λ (i : String). find_decision s i ≡ none) here fresh) same)
        | inr other ↦ rw other (find-append_skip (λ x. x.decision_id == id) s.decisions d other)
      ],
    )
