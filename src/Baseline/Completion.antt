-- ===== src/Baseline/Completion.antt =====
-- A valid move over plain actors that no fault rule can stop is completed.
use flink_control_plane_poc.Prelude.{String, ◌≡◌, ◌≢◌, ◌⊎◌, ap, true, false, some, List}
use flink_control_plane_poc.Prelude.Equality.{string_eq, contains}
use flink_control_plane_poc.Exec.{Result, ok, Returns}
use flink_control_plane_poc.Domain.{ClusterError, MoveDatatypeRequest}
use flink_control_plane_poc.Cluster.{MockCluster}
use flink_control_plane_poc.Cluster.Frame.{datatypes_of}
use flink_control_plane_poc.Cluster.WellFormed.{IsWellFormed}
use flink_control_plane_poc.Saga.{Failed, expected_steps}
use flink_control_plane_poc.Saga.Contract.{IsMoved, AllOrNothing}
use flink_control_plane_poc.Saga.Outcomes.{run-AllOrNothing}
use flink_control_plane_poc.Saga.Completion.{IsResponsive, run-Returns}
use flink_control_plane_poc.Baseline.Actor.Completion.{
  IsServed, pause-Returns, patch_config-Returns, resume-Returns,
}
use flink_control_plane_poc.Baseline.Saga.{plain_actors, plain_actors-IsLawful, run}

module _ (request : MoveDatatypeRequest) where
  -- The two families of the move.
  abbrev TakesPart : String → Type 0
  TakesPart family = (family ≡ request.source_family) ⊎ (family ≡ request.target_family)

  -- Both families of the move have a file, no permanent fault, and at most three faults left for
  -- each operation.
  abbrev pub AreServed : MockCluster → Type 0
  AreServed c = (family : String) → TakesPart family → IsServed family c

  plain_actors-IsResponsive : IsResponsive plain_actors request AreServed
  plain_actors-IsResponsive = record {
    pauses = λ family c part served. pause-Returns TakesPart family part c served;
    patches = λ family datatypes c part served.
        patch_config-Returns TakesPart family part datatypes c served;
    resumes = λ family c part served. resume-Returns TakesPart family part c served;
  }

  -- A run that has returned its six steps, with the datatype moved.
  abbrev pub Completed :
      MockCluster → Result (Failed ClusterError) (List String) × MockCluster → Type 0
  Completed c r =
      (t : MockCluster) × (r ≡ (ok (expected_steps request), t))
      × IsWellFormed t
      × IsMoved request c t

  completed :
      (c : MockCluster) {r : Result (Failed ClusterError) (List String) × MockCluster}
      → Returns AreServed r
      → AllOrNothing plain_actors request c r
      → Completed c r
  completed c (Returns.returned steps t served) (all, formed, moved) =
      (t, ap (λ s. (ok s, t)) all, formed, moved)

  -- On well-formed files, a run over the plain actors whose request the stored datatypes allow, and
  -- whose families have no permanent fault and at most three faults left for each operation,
  -- returns the six steps, with the datatype moved.
  pub run-Completes :
      (c : MockCluster) (old_source old_target : List String)
      → IsWellFormed c
      → request.source_family ≢ request.target_family
      → datatypes_of c request.source_family ≡ some old_source
      → datatypes_of c request.target_family ≡ some old_target
      → contains request.datatype old_source ≡ true
      → contains request.datatype old_target ≡ false
      → AreServed c
      → Completed c (run request c)
  unfolding run
  run-Completes c old_source old_target formed distinct at_source at_target owned new served =
      completed c
        (run-Returns plain_actors request AreServed plain_actors-IsResponsive plain_actors-IsLawful
          old_source old_target c distinct at_source at_target owned new served)
        (run-AllOrNothing plain_actors plain_actors-IsLawful request c (λ _. tt) formed)
