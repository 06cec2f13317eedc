-- ===== src/Temporal/Lawful.antt =====
-- The actors behind the proxy meet the contract of the saga, whatever the service does that its
-- documentation allows.
pub mod Reads
pub mod Commands
pub mod Restores
use mathlib.Core.Path.{subst}
use flink_control_plane_poc.Prelude.{String, refl}
use flink_control_plane_poc.Actors.{IsLawful}
use flink_control_plane_poc.Temporal.Engine.{Service}
use flink_control_plane_poc.Temporal.Saga.{temporal_actors}
use flink_control_plane_poc.Temporal.Lawful.Reads.{ReadEnds, read_status-ReadEnds, read-cases}
use flink_control_plane_poc.Temporal.Lawful.Commands.{pause-Ensures, resume-Ensures, patch-Ensures}
use flink_control_plane_poc.Temporal.Lawful.Restores.{
  restore-state-Ensures, restore-datatypes-Ensures,
}

module _ (service : Service) (workflow_id run_id : String) where
  -- The actors behind the proxy meet the contract of the saga over any service that retries
  -- activities and carries out updates as `Service` says. A command is fresh while no actor has
  -- finished an update with its id, and an actor remembers a pause by its own state.
  pub temporal_actors-IsLawful : IsLawful (temporal_actors service workflow_id run_id)
  temporal_actors-IsLawful = record {
    read-ok = λ family w t status h.
        let (same, found, _) =
          read-cases service family w _
            (subst (ReadEnds service family w) h (read_status-ReadEnds service family w)) in
        (same, found status refl);
    read-err = λ family w t e h.
        let (same, _, missing) =
          read-cases service family w _
            (subst (ReadEnds service family w) h (read_status-ReadEnds service family w)) in
        (same, missing e refl);
    pause-Ensures = pause-Ensures service workflow_id run_id;
    patch-Ensures = patch-Ensures service workflow_id run_id;
    resume-Ensures = resume-Ensures service workflow_id run_id;
    restore-state-Ensures = restore-state-Ensures service workflow_id run_id;
    restore-datatypes-Ensures = restore-datatypes-Ensures service workflow_id run_id;
  }
