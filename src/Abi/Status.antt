-- ===== src/Abi/Status.antt =====
-- `ClassStatus` of mmtk/src/abi.rs. The derived order is that of the discriminants.
use mmtk_art.Base.{ℕ, ◌<◌, ◌≡◌, ◌↔◌, Bool, Outcome, ok, panic, arith, ltb, leb, ◌==◌, if◌then◌else◌}

pub data ClassStatus : Type 0 where
  not_ready : ClassStatus
  retired : ClassStatus
  error_resolved : ClassStatus
  error_unresolved : ClassStatus
  idx : ClassStatus
  loaded : ClassStatus
  resolving : ClassStatus
  resolved : ClassStatus
  verifying : ClassStatus
  retry_verification_at_runtime : ClassStatus
  verified_needs_access_checks : ClassStatus
  verified : ClassStatus
  superclass_validated : ClassStatus
  initializing : ClassStatus
  initialized : ClassStatus
  visibly_initialized : ClassStatus

-- The discriminants.
abbrev pub as_u32 : ClassStatus → ℕ
as_u32 not_ready = 0
as_u32 retired = 1
as_u32 error_resolved = 2
as_u32 error_unresolved = 3
as_u32 idx = 4
as_u32 loaded = 5
as_u32 resolving = 6
as_u32 resolved = 7
as_u32 verifying = 8
as_u32 retry_verification_at_runtime = 9
as_u32 verified_needs_access_checks = 10
as_u32 verified = 11
as_u32 superclass_validated = 12
as_u32 initializing = 13
as_u32 initialized = 14
as_u32 visibly_initialized = 15

unfoldable pub from_u32 : ℕ → Outcome ClassStatus
from_u32 value =
    if value == 0
    then ok not_ready
    else if value == 1
    then ok retired
    else if value == 2
    then ok error_resolved
    else if value == 3
    then ok error_unresolved
    else if value == 4
    then ok idx
    else if value == 5
    then ok loaded
    else if value == 6
    then ok resolving
    else if value == 7
    then ok resolved
    else if value == 8
    then ok verifying
    else if value == 9
    then ok retry_verification_at_runtime
    else if value == 10
    then ok verified_needs_access_checks
    else if value == 11
    then ok verified
    else if value == 12
    then ok superclass_validated
    else if value == 13
    then ok initializing
    else if value == 14
    then ok initialized
    else if value == 15
    then ok visibly_initialized
    else panic

-- `status < other` and `status >= other`
abbrev pub status_lt : ClassStatus → ClassStatus → Bool
status_lt a b = ltb (as_u32 a) (as_u32 b)

abbrev pub status_ge : ClassStatus → ClassStatus → Bool
status_ge a b = leb (as_u32 b) (as_u32 a)

abbrev pub status_eq : ClassStatus → ClassStatus → Bool
status_eq a b = as_u32 a == as_u32 b

-- Conversion from `u32` gives a status exactly for that status's discriminant, and panics exactly
-- above the last one.
pub ClassStatus-from_u32 :
    (value : ℕ) (s : ClassStatus)
    → ((from_u32 value ≡ ok s) ↔ (value ≡ as_u32 s)) × ((from_u32 value ≡ panic) ↔ (15 < value))
unfolding from_u32
ClassStatus-from_u32 value s =
    ((λ h. ground arith, λ h. ground arith), (λ h. ground arith, λ h. ground arith))
