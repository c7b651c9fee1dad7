-- ===== src/Store/JsonFile/Durable.antt =====
-- src/store/json_file.rs: what is in the file of a store, whatever calls the store has taken.
use r2r_jev.Prelude.{
  String, List, [], ◌∷◌, ◌++◌, Option, none, some, ◌≡◌, ◌⊎◌, inl, inr, refl, sym, ap, subst, ◌∙◌,
  ok,
}
use mathlib.Core.List.{append_assoc, append-nil}
use r2r_jev.Store.{StoredEvent}
use r2r_jev.Store.Memory.{MemoryEventStore, memory, record_event}
use r2r_jev.Store.JsonFile.{
  Io, done, failed, FilePath, FileSystem, Codec, JsonFileEventStore, Attached, opened, open_store,
  persist_inner, noted, persist_if, persist, with_inner, json_file, health_of,
}
use r2r_jev.Store.JsonFile.Disk.{Same, Reliable, Effect, persist_inner-Effect}
use r2r_jev.Store.JsonFile.Runs.{
  StoreCall, advance, number_event, number_decision, number_outcome, add_event, add_decision,
  add_outcome, run_call, run_calls, run_calls-append_one,
}

module _ {D : Type 0} (fs : FileSystem D) (codec : Codec) where
  open_store-Same :
      (d d' : D) (path : FilePath)
      → Same fs path d d'
      → open_store fs codec d' path ≡ open_store fs codec d path
  unfolding open_store
  open_store-Same d d' path (there, has) = rw there (rw has refl)

  -- What a call does to the store: the memory store takes the call, and the file is rewritten with
  -- its result or stays.
  record Moved (a b : Attached D) (inner : MemoryEventStore) : Type 0 where
    at_path : b.store.path ≡ a.store.path
    inside : b.store.inner ≡ inner
    file :
        (open_store fs codec b.disk a.store.path ≡ opened fs codec a.store.path inner)
        ⊎ (open_store fs codec b.disk a.store.path ≡ open_store fs codec a.disk a.store.path)

  kept : (a : Attached D) (inner : MemoryEventStore) → Moved a (with_inner fs codec a inner) inner
  kept a inner = record { at_path = refl; inside = refl; file = inr refl }

  noted-Moved :
      (a : Attached D) (r : Io (Unit {0}) × D)
      → Effect fs codec a.disk a.store r
      → Moved a (noted fs codec a.store r) a.store.inner
  noted-Moved a (done u, d') h = record { at_path = refl; inside = refl; file = inl h }
  noted-Moved a (failed e, d') h = record {
    at_path = refl;
    inside = refl;
    file = inr (open_store-Same a.disk d' a.store.path h);
  }

  persist-Moved :
      (a : Attached D) (o : Option String)
      → Reliable fs codec a.store.path
      → Moved a (persist_if fs codec o a) a.store.inner
  persist-Moved a (some e) laws = record { at_path = refl; inside = refl; file = inr refl }
  persist-Moved a none laws =
      noted-Moved a (persist_inner fs codec a.disk a.store)
        (persist_inner-Effect fs codec a.disk a.store laws)

  from_inner :
      (a : Attached D) (inner : MemoryEventStore) (b : Attached D)
      → Moved (with_inner fs codec a inner) b inner
      → Moved a b inner
  from_inner a inner b m = record { at_path = m.at_path; inside = m.inside; file = m.file }

  run_call-Moved :
      (a : Attached D) (c : StoreCall)
      → Reliable fs codec a.store.path
      → Moved a (run_call (json_file fs codec) a c) (run_call memory a.store.inner c)
  unfolding run_call persist
  run_call-Moved a (advance key) laws = kept a _
  run_call-Moved a number_event laws = kept a _
  run_call-Moved a number_decision laws = kept a _
  run_call-Moved a number_outcome laws = kept a _
  run_call-Moved a (add_event event) laws =
      from_inner a _ _ (persist-Moved (with_inner fs codec a _) a.store.fatal_error laws)
  run_call-Moved a (add_decision decision) laws =
      from_inner a _ _ (persist-Moved (with_inner fs codec a _) a.store.fatal_error laws)
  run_call-Moved a (add_outcome outcome) laws =
      from_inner a _ _ (persist-Moved (with_inner fs codec a _) a.store.fatal_error laws)

  noted-saved :
      (a : Attached D) (r : Io (Unit {0}) × D)
      → Effect fs codec a.disk a.store r
      → (noted fs codec a.store r).store.fatal_error ≡ none
      → open_store fs codec (noted fs codec a.store r).disk a.store.path
        ≡ opened fs codec a.store.path a.store.inner
  noted-saved a (done u, d') h healthy = h
  noted-saved a (failed e, d') h healthy = absurd (cc healthy)

  persist_if-saved :
      (a : Attached D) (o : Option String)
      → Reliable fs codec a.store.path
      → a.store.fatal_error ≡ o
      → (persist_if fs codec o a).store.fatal_error ≡ none
      → open_store fs codec (persist_if fs codec o a).disk a.store.path
        ≡ opened fs codec a.store.path a.store.inner
  persist_if-saved a (some e) laws same healthy = absurd (cc (same, healthy))
  persist_if-saved a none laws same healthy =
      noted-saved a (persist_inner fs codec a.disk a.store)
        (persist_inner-Effect fs codec a.disk a.store laws) healthy

  healthy_none : (o : Option String) → health_of fs codec o ≡ ok tt → o ≡ none
  healthy_none none h = refl
  healthy_none (some e) h = absurd (cc h)

  -- Of a store at an ordinary path (`Reliable`): if it is healthy after an event is recorded, the
  -- file opens as a store with the same events, decisions, outcomes, versions and counters.
  pub record_event-saved :
      (a : Attached D) (event : StoredEvent)
      → Reliable fs codec a.store.path
      → let b = (json_file fs codec).record_event a event in
        (json_file fs codec).health b ≡ ok tt
        → open_store fs codec b.disk a.store.path ≡ opened fs codec a.store.path b.store.inner
  unfolding persist
  record_event-saved a event laws healthy =
      let c = with_inner fs codec a (record_event a.store.inner event) in
      let m = persist-Moved c a.store.fatal_error laws in
      persist_if-saved c a.store.fatal_error laws refl
        (healthy_none (persist_if fs codec a.store.fatal_error c).store.fatal_error healthy)
      ∙ ap (opened fs codec a.store.path) (sym m.inside)

  -- Where the run stands after the calls `past` from the memory store `start`: the inner store has
  -- taken them all, and the file opens as the store after a beginning of them.
  record Stands (path : FilePath) (start : MemoryEventStore) (past : List StoreCall)
      (a : Attached D) : Type 0 where
    at_path : a.store.path ≡ path
    inside : a.store.inner ≡ run_calls memory start past
    saved : List StoreCall
    unsaved : List StoreCall
    split : past ≡ saved ++ unsaved
    file : open_store fs codec a.disk path ≡ opened fs codec path (run_calls memory start saved)

  Moved-Stands :
      (path : FilePath) (start : MemoryEventStore) (past : List StoreCall) (a b : Attached D)
      (c : StoreCall)
      → Stands path start past a
      → Moved a b (run_call memory a.store.inner c)
      → Stands path start (past ++ c ∷ []) b
  Moved-Stands path start past a b c s m =
      let whole : run_call memory a.store.inner c ≡ run_calls memory start (past ++ c ∷ []) =
        ap (λ (i : MemoryEventStore). run_call memory i c) s.inside
        ∙ sym (run_calls-append_one memory start past c) in
      elim m.file [
        | inl fresh ↦ record {
          at_path = m.at_path ∙ s.at_path;
          inside = m.inside ∙ whole;
          saved = past ++ c ∷ [];
          unsaved = [];
          split = sym (append-nil (past ++ c ∷ []));
          file = rw (sym whole) (rw s.at_path at fresh);
        }
        | inr old ↦ record {
          at_path = m.at_path ∙ s.at_path;
          inside = m.inside ∙ whole;
          saved = s.saved;
          unsaved = s.unsaved ++ c ∷ [];
          split =
              ap (λ (xs : List StoreCall). xs ++ c ∷ []) s.split
              ∙ append_assoc s.saved s.unsaved (c ∷ []);
          file = (rw s.at_path at old) ∙ s.file;
        }
      ]

  run_calls-Stands :
      (path : FilePath) (start : MemoryEventStore) (past calls : List StoreCall) (a : Attached D)
      → Reliable fs codec path
      → Stands path start past a
      → Stands path start (past ++ calls) (run_calls (json_file fs codec) a calls)
  unfolding run_calls
  run_calls-Stands path start past [] a laws s =
      subst (λ (xs : List StoreCall). Stands path start xs a) (sym (append-nil past)) s
  run_calls-Stands path start past (c ∷ rest) a laws s =
      subst
        (λ (xs : List StoreCall).
          Stands path start xs
            (run_calls (json_file fs codec) (run_call (json_file fs codec) a c) rest))
        (append_assoc past (c ∷ []) rest)
        (run_calls-Stands path start (past ++ c ∷ []) rest (run_call (json_file fs codec) a c) laws
          (Moved-Stands path start past a (run_call (json_file fs codec) a c) c s
            (run_call-Moved a c (subst (Reliable fs codec) (sym s.at_path) laws))))

  -- Of a store that was opened at an ordinary path (`Reliable`): whatever calls it has taken since, and whichever of the
  -- writes failed, its answers come from the memory store after all of the calls, and its file opens
  -- as the memory store after a beginning of them.
  pub run_calls-recoverable :
      (path : FilePath) (disk : D) (start : MemoryEventStore) (calls : List StoreCall)
      → Reliable fs codec path
      → open_store fs codec disk path ≡ opened fs codec path start
      → let store : JsonFileEventStore = record {
        path = path;
        inner = start;
        fatal_error = none;
      } in
        let b = run_calls (json_file fs codec) (record { store = store; disk = disk }) calls in
        (b.store.inner ≡ run_calls memory start calls)
        × ((saved : List StoreCall) × (unsaved : List StoreCall) × (calls ≡ saved ++ unsaved)
            × (open_store fs codec b.disk path
                ≡ opened fs codec path (run_calls memory start saved)))
  run_calls-recoverable path disk start calls laws h =
      let store : JsonFileEventStore = record { path = path; inner = start; fatal_error = none } in
      let s =
        run_calls-Stands path start [] calls (record { store = store; disk = disk }) laws
          (record {
            at_path = refl;
            inside = unfold run_calls in refl;
            saved = [];
            unsaved = [];
            split = refl;
            file = unfold run_calls in h;
          }) in
      (s.inside, (s.saved, s.unsaved, s.split, s.file))
