-- ===== src/Errors/Retry.antt =====
-- The exceptions that are worth a retry.
use commerce_data_platform.Prelude.{
  ℕ, ◌≤◌, String, ◌≡◌, refl, sym, subst, ◌↔◌, inl, inr, true, some, arith, ◌==◌, ==_iff, str_eq,
  str_eq_iff, Bool-cases,
}
use commerce_data_platform.Exceptions.{
  Exception, lease_unavailable, table_lease_unavailable, warehouse_build, publish_in_progress,
  operational_error, client_error, connection_error, timeout_error,
}
use commerce_data_platform.Errors.{classify_error, is_retryable}

-- What can pass by itself: a lost connection, a lease that another run has, a publish run that is
-- active, and a storage that is busy or broken.
pub data IsTransient : Exception → Type 0 where
  connection_lost : IsTransient operational_error
  connection_refused : IsTransient connection_error
  timed_out : IsTransient timeout_error
  source_leased : IsTransient lease_unavailable
  table_leased : IsTransient table_lease_unavailable
  publish_active : IsTransient publish_in_progress
  throttled : IsTransient (client_error (some 429))
  server_error :
      (status : ℕ) → 500 ≤ status → status ≤ 599 → IsTransient (client_error (some status))
  connection_in_build : IsTransient (warehouse_build "SOURCE_CONNECTION_ERROR")
  lease_in_build : IsTransient (warehouse_build "LEASE_UNAVAILABLE")

IsTransient-retryable : (e : Exception) → IsTransient e → is_retryable e ≡ true
unfolding is_retryable classify_error
IsTransient-retryable e connection_lost = refl
IsTransient-retryable e connection_refused = refl
IsTransient-retryable e timed_out = refl
IsTransient-retryable e source_leased = refl
IsTransient-retryable e table_leased = refl
IsTransient-retryable e publish_active = refl
IsTransient-retryable e throttled = refl
IsTransient-retryable e (server_error status low high) = ground arith
IsTransient-retryable e connection_in_build = refl
IsTransient-retryable e lease_in_build = refl

retryable_build :
    (t : String) → is_retryable (warehouse_build t) ≡ true → IsTransient (warehouse_build t)
unfolding is_retryable classify_error
retryable_build t h = elim (Bool-cases (str_eq t "SOURCE_CONNECTION_ERROR")) [
  | inl e ↦
      subst (λ (s : String). IsTransient (warehouse_build s))
        (sym ((str_eq_iff t "SOURCE_CONNECTION_ERROR").0 e)) connection_in_build
  | inr e ↦ elim (Bool-cases (str_eq t "LEASE_UNAVAILABLE")) [
    | inl l ↦
        subst (λ (s : String). IsTransient (warehouse_build s))
          (sym ((str_eq_iff t "LEASE_UNAVAILABLE").0 l)) lease_in_build
    | inr l ↦ absurd (ground arith)
  ]
]

retryable_status-IsTransient :
    (status : ℕ)
    → is_retryable (client_error (some status)) ≡ true
    → IsTransient (client_error (some status))
unfolding is_retryable classify_error
retryable_status-IsTransient status h = elim (Bool-cases (status == 429)) [
  | inl e ↦
      subst (λ (s : ℕ). IsTransient (client_error (some s))) (sym ((==_iff status 429).0 e))
        throttled
  | inr e ↦ server_error status (ground arith) (ground arith)
]

retryable-IsTransient : (e : Exception) → is_retryable e ≡ true → IsTransient e
unfolding is_retryable classify_error
retryable-IsTransient operational_error h = connection_lost
retryable-IsTransient connection_error h = connection_refused
retryable-IsTransient timeout_error h = timed_out
retryable-IsTransient lease_unavailable h = source_leased
retryable-IsTransient table_lease_unavailable h = table_leased
retryable-IsTransient publish_in_progress h = publish_active
retryable-IsTransient (warehouse_build t) h = retryable_build t h
retryable-IsTransient (client_error (some status)) h = retryable_status-IsTransient status h
retryable-IsTransient e h = absurd (ground arith)

-- A task retries an exception exactly if it can pass by itself: a lost or refused connection, a
-- timeout, a lease or a publish run that is held, a storage's 429 or 5xx, or a build that reports
-- one of the two retryable types.
pub retryable_iff : (e : Exception) → (is_retryable e ≡ true) ↔ IsTransient e
retryable_iff e = (retryable-IsTransient e, IsTransient-retryable e)
