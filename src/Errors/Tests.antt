-- ===== src/Errors/Tests.antt =====
-- The retry rule at one exception.
use commerce_data_platform.Prelude.{◌≡◌, refl, ◌↔◌, true, false, some}
use commerce_data_platform.Exceptions.{client_error, lease_ownership_lost}
use commerce_data_platform.Errors.{classify_error, is_retryable}
use commerce_data_platform.Errors.Retry.{IsTransient, retryable_iff}

retryable_iff_example :
    (is_retryable (client_error (some 503)) ≡ true) ↔ IsTransient (client_error (some 503))
retryable_iff_example = retryable_iff (client_error (some 503))

fenced_off : is_retryable lease_ownership_lost ≡ false
unfolding is_retryable classify_error
fenced_off = refl
