-- ===== src/Governance/Override.antt =====
-- src/r2r.rs: `human_override`.
use r2r_jev.Prelude.{String, List, [], ◌∷◌, ◌++◌, Option, none, some, if◌then◌else◌}
use r2r_jev.Prelude.Format.{format}
use r2r_jev.Governance.{
  AuthorizationPhase, Supervision, RelationChange, Admission, allow, IdKind, next, new_change,
  Governance, push_ids, is_suspended,
}

-- `if self.state.authorization != Active { … }`
restore_authorization : String → Governance × List RelationChange → Governance × List RelationChange
restore_authorization cause (g, changes) =
    let (change, counters) =
      new_change IdKind.authorization "Authorization" "Suspended -> Active" cause g.counters in
    if is_suspended g.state.authorization
    then (
      record g {
        state = record g.state { authorization = AuthorizationPhase.active };
        counters = counters;
        governing_authorization = some change.id;
      },
      changes ++ change ∷ [],
    )
    else (g, changes)

-- `if self.state.supervision.is_none() { … }`
create_supervision :
    Option Supervision
    → String
    → String
    → Governance × List RelationChange
    → Governance × List RelationChange
create_supervision (some held) supervisor cause (g, changes) = (g, changes)
create_supervision none supervisor cause (g, changes) =
    let (change, counters) =
      new_change IdKind.supervision "Supervision" "created" cause g.counters in
    (
      record g {
        state = record g.state {
          supervision = some (record { supervisor = supervisor; created_by = cause });
        };
        counters = counters;
      },
      changes ++ change ∷ [],
    )

unfoldable pub human_override : String → String → Governance → Admission × Governance
unfolding restore_authorization create_supervision next new_change
human_override supervisor action g =
    let (event_id, counters) = next IdKind.event g.counters in
    let (g', changes) =
      create_supervision g.state.supervision supervisor event_id
        (restore_authorization event_id (record g { counters = counters }, [])) in
    let line = format (push_ids event_id changes ∷ " -> ALLOW(" ∷ action ∷ ")" ∷ []) in
    (
      record {
        event_id = event_id;
        evidence = [];
        reason = "human override restores authorization under supervision";
        relation_changes = changes;
        decision = allow;
        action = action;
      },
      record g' { provenance = g'.provenance ++ line ∷ [] },
    )
