-- ===== src/Temporal/Lawful/Reads.antt =====
-- How a read of the saga ends.
use flink_control_plane_poc.Prelude.{String, ◌≡◌, refl, none, some}
use flink_control_plane_poc.Prelude.Equality.{string_eq}
use flink_control_plane_poc.Prelude.Dict.{lookup}
use flink_control_plane_poc.Exec.{Result, ok, err}
use flink_control_plane_poc.Domain.{FamilyStatus}
use flink_control_plane_poc.Cluster.{MockCluster}
use flink_control_plane_poc.Temporal.Engine.{Failure, Service}
use flink_control_plane_poc.Temporal.Proxy.{World}
use flink_control_plane_poc.Temporal.Saga.{read_status, default_retry}
use flink_control_plane_poc.Temporal.Executions.{Reads, execute_activity-Reads}

module _ (service : Service) where
  -- How a read of the saga ends.
  pub data ReadEnds (family : String) (w : World)
      : Result Failure FamilyStatus × World → Type 0 where
    known :
        (status : FamilyStatus)
        → lookup family w.files.families ≡ some status
        → ReadEnds family w (ok status, w)
    unknown : (e : Failure) → lookup family w.files.families ≡ none → ReadEnds family w (err e, w)

  pub read_status-ReadEnds :
      (family : String) (w : World) → ReadEnds family w (read_status service family w)
  unfolding read_status
  read_status-ReadEnds family w = go (execute_activity-Reads family default_retry service w.files)
    where
      go :
          {r : Result Failure FamilyStatus × MockCluster}
          → Reads family default_retry w.files r
          → ReadEnds family w (r.0, record w { files = r.1 })
      go (Reads.known status found) = ReadEnds.known status found
      go (Reads.failed e missing) = ReadEnds.unknown e (missing refl)

  pub read-cases :
      (family : String) (w : World) (r : Result Failure FamilyStatus × World)
      → ReadEnds family w r
      → (r.1 ≡ w)
        × ((status : FamilyStatus) → r.0 ≡ ok status → lookup family w.files.families ≡ some status)
        × ((e : Failure) → r.0 ≡ err e → lookup family w.files.families ≡ none)
  read-cases family w r (ReadEnds.known status found) = (refl, (λ other e. cc), λ e same. cc)
  read-cases family w r (ReadEnds.unknown e missing) = (refl, (λ status e. cc), λ e same. missing)
