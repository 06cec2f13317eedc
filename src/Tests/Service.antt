-- ===== src/Tests/Service.antt =====
-- A service that retries at once and hears every answer, by what Temporal.Engine asks of one.
use flink_control_plane_poc.Prelude.{
  ℕ, zero, suc, ◌≤◌, ◌-◌, String, ◌≡◌, ◌≢◌, inl, inr, refl, Bool, true, false, Option, none, some,
  if◌then◌else◌, arith,
}
use flink_control_plane_poc.Exec.{Result, ok, err, Exec}
use flink_control_plane_poc.Prelude.Equality.{string_eq}
use flink_control_plane_poc.Temporal.Proxy.{handler}
use flink_control_plane_poc.Temporal.Engine.{
  ActivityError, Activity, RetryPolicy, is_retried, Failure, failed, endless, Attempts, Executed,
  UpdateResult, UpdateError, Finished, answer, finish, Update, Service,
}

-- The rounds that a policy with a limit has left.
unfoldable pub try_all : {S A : Type 0} → RetryPolicy → ℕ → Activity S A → S → Result Failure A × S
try_all policy zero fn s =
    let (r, t) = fn s in elim r [ ok a ↦ (ok a, t) | err e ↦ (err (failed e.text), t) ]
try_all policy (suc more) fn s =
    let (r, t) = fn s in
    let rest = try_all policy more fn t in
    elim r [
      | ok a ↦ (ok a, t)
      | err e ↦ (if is_retried policy e then rest else (err (failed e.text), t))
    ]

-- Without a limit: an operation on files that stay as they are fails again and again.
unfoldable pub try_on : {S A : Type 0} → RetryPolicy → Activity S A → S → Result Failure A × S
try_on policy fn s =
    let (r, t) = fn s in
    elim r [
      | ok a ↦ (ok a, t)
      | err e ↦ (if is_retried policy e then (err endless, t) else (err (failed e.text), t))
    ]

unfoldable pub run_activity : {S A : Type 0} → RetryPolicy → Activity S A → S → Result Failure A × S
unfolding try_all try_on
run_activity policy fn s = elim policy.maximum_attempts [
  | none ↦ try_on policy fn s
  | some limit ↦ try_all policy (limit - 1) fn s
]

abbrev Within : {S A : Type 0} → ℕ → RetryPolicy → Activity S A → S → Result Failure A × S → Type 0
Within bound policy fn s r = (n : ℕ) × (n ≤ bound) × Attempts policy fn n s r

module _ {S A : Type 0} (policy : RetryPolicy) (fn : Activity S A) where
  try_all-Within :
      (more : ℕ) (s : S)
      → policy.maximum_attempts ≢ none
      → Within (suc more) policy fn s (try_all policy more fn s)
  unfolding try_all
  try_all-Within zero s limited = go (fn s) refl
    where
      go :
          (r : Result ActivityError A × S)
          → fn s ≡ r
          → Within 1 policy fn s
              (elim r.0 [ ok a ↦ (ok a, r.1) | err e ↦ (err (failed e.text), r.1) ])
      go (ok a, t) h = (1, omega arith, Attempts.returned a s t h)
      go (err e, t) h = (1, omega arith, Attempts.gave_up e s t h (inr limited))
  try_all-Within (suc more) s limited = go (λ t. try_all-Within more t limited) (fn s) refl
    where
      go :
          ((t : S) → Within (suc more) policy fn t (try_all policy more fn t))
          → (r : Result ActivityError A × S) → fn s ≡ r
          → Within (suc (suc more)) policy fn s (elim r.0 [
            | ok a ↦ (ok a, r.1)
            | err e ↦
                (if is_retried policy e
                  then try_all policy more fn r.1
                  else (err (failed e.text), r.1))
          ])
      go later (ok a, t) h = (1, omega arith, Attempts.returned a s t h)
      go later (err e, t) h = choose (is_retried policy e) refl
        where
          choose :
              (retried : Bool)
              → is_retried policy e ≡ retried
              → Within
                  (suc (suc more))
                  policy
                  fn
                  s
                  (if retried then try_all policy more fn t else (err (failed e.text), t))
          choose true is =
              let (n, few, rest) = later t in
              (suc n, omega (arith, few), Attempts.again e n s t _ h is rest)
          choose false is = (1, omega arith, Attempts.gave_up e s t h (inl is))

  try_on-Within :
      (s : S) → policy.maximum_attempts ≡ none → Within 1 policy fn s (try_on policy fn s)
  unfolding try_on
  try_on-Within s unlimited = go (fn s) refl
    where
      go :
          (r : Result ActivityError A × S)
          → fn s ≡ r
          → Within 1 policy fn s (elim r.0 [
            | ok a ↦ (ok a, r.1)
            | err e ↦
                (if is_retried policy e then (err endless, r.1) else (err (failed e.text), r.1))
          ])
      go (ok a, t) h = (1, omega arith, Attempts.returned a s t h)
      go (err e, t) h = choose (is_retried policy e) refl
        where
          choose :
              (retried : Bool)
              → is_retried policy e ≡ retried
              → Within 1 policy fn s
                  (if retried then (err endless, t) else (err (failed e.text), t))
          choose true is = (1, omega arith, Attempts.going_on e s t h is unlimited)
          choose false is = (1, omega arith, Attempts.gave_up e s t h (inl is))

pub run_activity-Executed :
    {S A : Type 0} (policy : RetryPolicy) (fn : Activity S A) (s : S)
    → Executed policy fn s (run_activity policy fn s)
unfolding run_activity
run_activity-Executed policy fn s = go policy.maximum_attempts refl
  where
    go :
        (limit : Option ℕ)
        → policy.maximum_attempts ≡ limit
        → Executed policy fn s
            (elim limit [ none ↦ try_on policy fn s | some n ↦ try_all policy (n - 1) fn s ])
    go none is =
        let (n, few, attempts) = try_on-Within policy fn s is in
        record {
          made = n;
          attempts = attempts;
          allowed = λ limit some_limit h. absurd (ground (arith, is, h));
        }
    go (some m) is =
        let (n, few, attempts) = try_all-Within policy fn (m - 1) s (λ h. ground (arith, is, h)) in
        record {
          made = n;
          attempts = attempts;
          allowed = λ limit some_limit h.
              let same : m ≡ limit = ground (arith, is, h) in omega (arith, few, same, some_limit);
        }

unfoldable pub run_update :
    {S : Type 0}
    → (S → Finished)
    → (Finished → S → S)
    → String
    → String
    → Exec S Failure UpdateResult
    → S
    → Result UpdateError UpdateResult × S
run_update finished set workflow id handler s = elim (finished s workflow id) [
  | some r ↦ (answer r, s)
  | none ↦ (let (r, t) = handler s in (answer r, set (finish workflow id r (finished t)) t))
]

pub run_update-Update :
    {S : Type 0} (finished : S → Finished) (set : Finished → S → S) (workflow id : String)
    (handler : Exec S Failure UpdateResult) (s : S)
    → Update finished set workflow id handler s (run_update finished set workflow id handler s)
unfolding run_update
run_update-Update finished set workflow id handler s = go (finished s workflow id) refl
  where
    go :
        (before : Option (Result Failure UpdateResult))
        → finished s workflow id ≡ before
        → Update finished set workflow id handler s (elim before [
          | some r ↦ (answer r, s)
          | none ↦ (let (r, t) = handler s in (answer r, set (finish workflow id r (finished t)) t))
        ])
    go none new = Update.ran _ _ new refl
    go (some r) old = Update.known r old

pub text_of : Failure → String
text_of (failed text) = text
text_of endless = ""

unfoldable pub prompt : Service
prompt = record {
  error_text = text_of;
  execute_activity = run_activity;
  execute_activity-Executed = run_activity-Executed;
  execute_update = run_update;
  execute_update-Update = run_update-Update;
}
