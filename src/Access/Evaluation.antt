-- ===== src/Access/Evaluation.antt =====
-- The ordered checks of `evaluate` and the decision they give
-- (src/main/services/commercialAccess.service.ts).
use pos_desktop.Prelude.{
  ℕ, Bool, true, false, not, ◌&&◌, Option, none, some, if◌then◌else◌, Result, err, ok, ◌>>=◌, ◌>>◌,
  refuse_if,
}
use pos_desktop.Prelude.Int.{ℤ, pos, ◌+ℤ◌, ltb_ℤ}
use pos_desktop.Prelude.Text.{Text}
use pos_desktop.Access.{
  Action, Reason, Warning, LicenseStatus, World, ValidatedLicenseState, Decision, choose,
  device_reason, connectivity_reason,
}
use pos_desktop.Access.License.{license_state}

-- `reason === null` goes on.
abbrev pub deny_for :
    Option Reason → Option LicenseStatus → Result (Reason × Option LicenseStatus) (Unit {0})
deny_for none status = ok tt
deny_for (some reason) status = err (reason, status)

-- The period has ended, and so has the grace after it.
abbrev pub is_over : ValidatedLicenseState → ℤ → Bool
is_over state now = elim (state.expires_at) [
  | none ↦ false
  | some expires ↦
      not (ltb_ℤ now expires)
      && elim (state.grace_ends_at) [ none ↦ true | some grace_end ↦ not (ltb_ℤ now grace_end) ]
]

abbrev pub is_selling : Action → Bool
is_selling action = choose action true false

-- `CLOCK_ROLLBACK_TOLERANCE_MS`
abbrev pub clock_rollback_tolerance : ℕ
clock_rollback_tolerance = 60_000

abbrev pub validation_due_soon_window : ℕ
validation_due_soon_window = 86_400_000

-- `!company`, and `company && !company.isActive`.
abbrev pub is_unknown : Option Bool → Bool
is_unknown none = true
is_unknown (some active) = false

abbrev pub is_inactive : Option Bool → Bool
is_inactive none = false
is_inactive (some active) = not active

-- The checks of `evaluate` after the license is read.
unfoldable pub assess_license :
    Action
    → ℤ
    → World
    → ValidatedLicenseState
    → Result (Reason × Option LicenseStatus) ValidatedLicenseState
assess_license action now w state =
    let status = some state.status in
    do
      refuse_if (ltb_ℤ (now +ℤ pos clock_rollback_tolerance) state.trusted_time_anchor)
          (Reason.clock_untrusted, status)
      refuse_if (is_over state now) (Reason.grace_ended, status)
      refuse_if (not (ltb_ℤ now state.next_validation_due_at)) (Reason.validation_overdue, status)
      refuse_if (is_selling action && is_unknown w.company) (Reason.bootstrap_incomplete, status)
      refuse_if (is_inactive w.company) (Reason.company_inactive, status)
      refuse_if (is_selling action && w.is_suspended) (Reason.company_suspended, status)
      refuse_if (is_selling action && not w.has_pos_feature) (Reason.feature_not_enabled, status)
      refuse_if (not (choose action state.status.can_sell state.status.can_sync))
          (Reason.license_denied, status)
      refuse_if (is_selling action && not w.may_sell) (Reason.permission_denied, status)
      deny_for (connectivity_reason action w.connectivity w.backend_reachable) status
      ok state

-- The retryable classes of `COMMERCIAL_ACCESS_REASON_CLASSIFICATION`.
abbrev pub is_retryable : Reason → Bool
is_retryable Reason.company_suspended = true
is_retryable Reason.connectivity_unavailable = true
is_retryable _ = false

unfoldable pub denied : Action → Reason → ℤ → Option LicenseStatus → Decision
denied action reason now status = record {
  allowed = false;
  reason = some reason;
  warning = none;
  action = action;
  retryable = is_retryable reason;
  evaluated_at = now;
  next_validation_due_at = elim status [ none ↦ none | some s ↦ some s.next_validation_due_at ];
  restriction_level = elim status [ none ↦ none | some s ↦ some s.restriction_level ];
  warning_message = elim status [ none ↦ none | some s ↦ s.warning_message ];
}

unfoldable pub warning_of : ℤ → ValidatedLicenseState → Option Warning
warning_of now state =
    if elim (state.expires_at) [ none ↦ false | some expires ↦ not (ltb_ℤ now expires) ]
    then some Warning.grace
    else if not (ltb_ℤ (now +ℤ pos validation_due_soon_window) state.next_validation_due_at)
    then some Warning.validation_due_soon
    else none

unfoldable pub permitted : Action → ℤ → ValidatedLicenseState → Decision
permitted action now state = record {
  allowed = true;
  reason = none;
  warning = warning_of now state;
  action = action;
  retryable = false;
  evaluated_at = now;
  next_validation_due_at = some state.status.next_validation_due_at;
  restriction_level = some state.status.restriction_level;
  warning_message = state.status.warning_message;
}

unfoldable pub decision :
    Action → ℤ → Result (Reason × Option LicenseStatus) ValidatedLicenseState → Decision
decision action now (err (reason, status)) = denied action reason now status
decision action now (ok state) = permitted action now state

module _ (parse_date : Text → Option ℤ) where
  -- The checks of `evaluate`, in order; a denial carries the license that was read by then.
  unfoldable pub assess :
      Action → ℤ → World → Result (Reason × Option LicenseStatus) ValidatedLicenseState
  assess action now w = do
    deny_for (device_reason w.device action) none
    refuse_if (not w.is_authenticated) (Reason.session_invalid, none)
    state ← elim (license_state parse_date w.license w.anchor) [
      | none ↦ err (Reason.license_state_invalid, none)
      | some state ↦ ok state
    ]
    assess_license action now w state

  unfoldable pub evaluate : Action → ℤ → World → Decision
  evaluate action now w = decision action now (assess action now w)
