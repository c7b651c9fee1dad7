-- ===== src/Store/JsonFile/Runs.antt =====
-- src/store/mod.rs: sequences of the calls that change a store, over any store.
use r2r_jev.Prelude.{List, [], ◌∷◌, ◌++◌, ◌≡◌, refl}
use r2r_jev.Store.{DomainKey, StoredEvent, StoredDecision, StoredOutcome, EventStore}

-- A call of a method on `&mut self`.
pub data StoreCall : Type 0 where
  advance : DomainKey → StoreCall
  number_event number_decision number_outcome : StoreCall
  add_event : StoredEvent → StoreCall
  add_decision : StoredDecision → StoreCall
  add_outcome : StoredOutcome → StoreCall

module _ {S : Type 0} (store_ops : EventStore S) where
  open store_ops use {
    advance_state_version, next_event_id, record_event, next_decision_id, record_decision,
    next_outcome_id, record_outcome,
  }

  unfoldable pub run_call : S → StoreCall → S
  run_call s (advance key) = (advance_state_version s key).1
  run_call s number_event = (next_event_id s).1
  run_call s number_decision = (next_decision_id s).1
  run_call s number_outcome = (next_outcome_id s).1
  run_call s (add_event event) = record_event s event
  run_call s (add_decision decision) = record_decision s decision
  run_call s (add_outcome outcome) = record_outcome s outcome

  unfoldable pub run_calls : S → List StoreCall → S
  run_calls s [] = s
  run_calls s (c ∷ rest) = run_calls (run_call s c) rest

  pub run_calls-append_one :
      (s : S) (cs : List StoreCall) (c : StoreCall)
      → run_calls s (cs ++ c ∷ []) ≡ run_call (run_calls s cs) c
  unfolding run_calls
  run_calls-append_one s [] c = refl
  run_calls-append_one s (d ∷ cs) c = run_calls-append_one (run_call s d) cs c
