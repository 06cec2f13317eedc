-- ===== src/Baseline/Saga.antt =====
-- poc/baseline/saga.py: the saga over the plain actors.
use mathlib.Core.Path.{subst₂}
use flink_control_plane_poc.Prelude.{sym, String, ◌≡◌, refl, none, some, List, arith}
use flink_control_plane_poc.Prelude.Dict.{lookup}
use flink_control_plane_poc.Exec.{Result, ok, err, Ensures, Ensures-map}
use flink_control_plane_poc.Domain.{ClusterError, error_text, FamilyStatus, MoveDatatypeRequest}
use flink_control_plane_poc.Cluster.{MockCluster, read}
use flink_control_plane_poc.Cluster.Frame.{state_of, datatypes_of}
use flink_control_plane_poc.Cluster.Changes.{
  OnlyState, OnlyDatatypes, OnlyState-refl, OnlyDatatypes-refl,
}
use flink_control_plane_poc.Actors.{Actors, IsLawful}
use flink_control_plane_poc.Saga
use flink_control_plane_poc.Saga.{Failed}
use flink_control_plane_poc.Baseline.Actor
use flink_control_plane_poc.Baseline.Actor.{read_status}
use flink_control_plane_poc.Baseline.Actor.Frame

abbrev pub plain_actors : Actors
plain_actors = record {
  S = MockCluster;
  E = ClusterError;
  cluster = λ c. c;
  text = error_text;
  read_status = read_status;
  pause = Actor.pause;
  patch_config = Actor.patch_config;
  resume = Actor.resume;
  restore = λ _ item. Actor.restore item.family item.desired_state item.datatypes;
  IsPaused = λ _ _. Unit {0};
  IsFresh = λ _ _. Unit {0};
}

-- `MoveDatatypeWorkflow.run`
unfoldable pub run :
    MoveDatatypeRequest → MockCluster → Result (Failed ClusterError) (List String) × MockCluster
unfolding Saga.run
run = Saga.run plain_actors

read-cases :
    (family : String) (c : MockCluster) (r : Result ClusterError FamilyStatus × MockCluster)
    → read_status family c ≡ r
    → (r.1 ≡ c)
      × ((status : FamilyStatus) → r.0 ≡ ok status → lookup family c.families ≡ some status)
      × ((e : ClusterError) → r.0 ≡ err e → lookup family c.families ≡ none)
unfolding read_status read
read-cases family c r h = ground arith

-- The plain actors meet the contract of the saga. They remember nothing of a pause: a resume is
-- always carried out.
pub plain_actors-IsLawful : IsLawful plain_actors
plain_actors-IsLawful = record {
  read-ok = λ family s t status h.
      let (same, found, _) = read-cases family s _ h in (same, found status refl);
  read-err =
      λ family s t e h. let (same, _, missing) = read-cases family s _ h in (same, missing e refl);
  pause-Ensures = λ family s fresh formed.
      Ensures-map (λ t i. (i, (λ _ _ _. tt), λ _ _ _. tt)) (λ t _ _. tt)
        (Frame.pause-Ensures family s s (OnlyState-refl family s formed));
  patch-Ensures = λ family datatypes s fresh formed.
      Ensures-map (λ t i. (i, λ _ _ _. tt)) (λ t _ q. (q, λ _ _. tt))
        (Frame.patch_config-Ensures family s datatypes s (OnlyDatatypes-refl family s formed));
  resume-Ensures = λ family s fresh formed.
      Ensures-map (λ t i. (i, (λ _ _ _. tt), λ _ _ _. tt)) (λ t _ q _. q)
        (Frame.resume-returns family s s (OnlyState-refl family s formed));
  restore-state-Ensures = λ index item desired s wants rest fresh formed.
      Ensures-map (λ t i. (i, λ _ _ _. tt)) (λ t _ q. q)
        (subst₂
          (λ x y.
            Ensures (OnlyState item.family s) (λ t. state_of t item.family ≡ some desired)
              (Actor.restore item.family x y s))
          (sym wants) (sym rest)
          (Frame.restore-state-Ensures item.family s desired s
            (OnlyState-refl item.family s formed)));
  restore-datatypes-Ensures = λ index item datatypes s wants rest fresh formed.
      Ensures-map (λ t i. (i, λ _ _ _. tt)) (λ t _ q. q)
        (subst₂
          (λ x y.
            Ensures (OnlyDatatypes item.family s) (λ t. datatypes_of t item.family ≡ some datatypes)
              (Actor.restore item.family x y s))
          (sym rest) (sym wants)
          (Frame.restore-datatypes-Ensures item.family s datatypes s
            (OnlyDatatypes-refl item.family s formed)));
}
