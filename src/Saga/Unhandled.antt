-- ===== src/Saga/Unhandled.antt =====
-- Where the exceptions come from that a run passes on as they are: only the reads before the first
-- step stand outside its `try`.
use flink_control_plane_poc.Prelude.{String, ◌≡◌, refl, none, some, Option, List, []}
use flink_control_plane_poc.Exec.{Result, ok, err}
use flink_control_plane_poc.Domain.{rejected, MoveDatatypeRequest, FamilyStatus}
use flink_control_plane_poc.Actors.{Actors}
use flink_control_plane_poc.Saga.{
  Failed, saga_error, unhandled, Statuses, Run, read_all, validation_error, failure,
  nothing_unwound, forward, transact, roll_back, judge, run,
}

module _ (A : Actors) (P : A.E → Type 0) where
  abbrev pub Passes : Result (Failed A.E) (List String) → Type 0
  Passes (ok steps) = Unit
  Passes (err (saga_error e)) = Unit
  Passes (err (unhandled e)) = P e

  abbrev Raises : Result A.E Statuses → Type 0
  Raises (ok statuses) = Unit
  Raises (err e) = P e

  transact-Passes :
      (request : MoveDatatypeRequest) (statuses : Statuses) (s : A.S)
      → Passes (transact A request statuses s).0
  unfolding transact roll_back
  transact-Passes request statuses s =
      go (forward A request statuses (record { store = s; done = []; stack = [] }))
    where
      go :
          (r : Result A.E (Unit {0}) × Run A.S)
          → Passes (
              let q : Result (Failed A.E) (List String) × A.S = elim r.0 [
                | ok _ ↦ (ok r.1.done, r.1.store)
                | err e ↦ roll_back A request e r.1
              ] in
              q.0)
      go (ok _, r) = tt
      go (err e, r) = tt

  judge-Passes :
      (request : MoveDatatypeRequest) (statuses : Statuses) (s : A.S)
      → Passes (judge A request statuses s).0
  unfolding judge
  judge-Passes request statuses s = go (validation_error request statuses)
    where
      go :
          (verdict : Option String)
          → Passes (
              let q : Result (Failed A.E) (List String) × A.S = elim verdict [
                | some reason ↦ (
                  err (saga_error (failure request rejected "validate" reason nothing_unwound)),
                  s,
                )
                | none ↦ transact A request statuses s
              ] in
              q.0)
      go (some reason) = tt
      go none = transact-Passes request statuses s

  module _
      (each : (family : String) (s t : A.S) (e : A.E)
        → A.read_status family s ≡ (err e, t)
        → P e) where
    read_all-Raises : (request : MoveDatatypeRequest) (s : A.S) → Raises (read_all A request s).0
    unfolding read_all
    read_all-Raises request s = first (A.read_status request.source_family s) refl
      where
        second :
            (source : FamilyStatus) (r : Result A.E FamilyStatus × A.S) (s : A.S)
            → A.read_status request.target_family s ≡ r
            → Raises (
                let q : Result A.E Statuses × A.S = elim r.0 [
                  | ok target ↦ (ok (record { source = source; target = target }), r.1)
                  | err e ↦ (err e, r.1)
                ] in
                q.0)
        second source (ok target, t) s h = tt
        second source (err e, t) s h = each request.target_family s t e h

        first :
            (r : Result A.E FamilyStatus × A.S)
            → A.read_status request.source_family s ≡ r
            → Raises (
                let q : Result A.E Statuses × A.S = elim r.0 [
                  | ok source ↦
                      (let p : Result A.E FamilyStatus × A.S =
                          A.read_status request.target_family r.1 in
                        elim p.0 [
                          | ok target ↦ (ok (record { source = source; target = target }), p.1)
                          | err e ↦ (err e, p.1)
                        ])
                  | err e ↦ (err e, r.1)
                ] in
                q.0)
        first (ok source, t) h = second source (A.read_status request.target_family t) t refl
        first (err e, t) h = each request.source_family s t e h

    -- What every failing read raises with, a run raises with as well, unless it ends with a verdict.
    pub run-Passes : (request : MoveDatatypeRequest) (s : A.S) → Passes (run A request s).0
    unfolding run
    run-Passes request s = go (read_all A request s) (read_all-Raises request s)
      where
        go :
            (r : Result A.E Statuses × A.S)
            → Raises r.0
            → Passes (
                let q : Result (Failed A.E) (List String) × A.S = elim r.0 [
                  | ok statuses ↦ judge A request statuses r.1
                  | err e ↦ (err (unhandled e), r.1)
                ] in
                q.0)
        go (ok statuses, t) h = judge-Passes request statuses t
        go (err e, t) h = h
