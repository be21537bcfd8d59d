-- ===== src/Access/Tests.antt =====
-- Access at small instants, read from one digit, and the theorems there.
use pos_desktop.Prelude.{◌-◌, ◌≡◌, refl, ◌↔◌, true, false, Option, none, some, List, [], ◌∷◌}
use pos_desktop.Prelude.Int.{ℤ, pos, ◌+ℤ◌}
use pos_desktop.Prelude.Text.{Text, codes, text_eq}
use pos_desktop.Access.{
  Action, Reason, ConnectivityStatus, Subscription, LicenseStatus, World, ValidatedLicenseState,
  is_terminal, can_device_perform, device_reason, connectivity_reason, meets_connectivity,
}
use pos_desktop.Access.License.{
  license_state, timestamp_or_null, is_bad, is_readable, validated, covered_renewal, renewal_at,
  coverage_grace, continues,
}
use pos_desktop.Access.Evaluation.{assess, assess_license, decision, denied, permitted, evaluate}
use pos_desktop.Access.Permits.{Permits, evaluate-Permits, evaluate_independent}
use pos_desktop.Access.Relaxing.{
  StoredBootstrapAccess, BootstrapAccessParts, bootstrap_relaxes, NoWider,
  bootstrap_relaxes-NoWider,
}
use pos_desktop.Access.Renewal.{IsNoEarlier, IsAfter, license_state-NoEarlier}
use pos_desktop.Access.Ordering.{
  Owner, Answer, IsOrdered, admit_all, admit_access_answer, admit_owned, current_sequence,
  admit_all-IsOrdered,
}

abbrev read_digit : Text → Option ℤ
read_digit [] = none
read_digit (c ∷ rest) = some (pos (c - 48))

abbrev renewed : Subscription
renewed = record {
  expires_at = some (codes "4");
  grace_ends_at = some (codes "5");
  offline_coverage =
      some (record { starts_at = codes "4"; expires_at = codes "7"; grace_ends_at = none });
}

abbrev license : LicenseStatus
license = record {
  can_sell = true;
  can_sync = true;
  server_time = codes "2";
  validated_at = codes "2";
  next_validation_due_at = codes "9";
  subscription = some renewed;
  restriction_level = codes "none";
  warning_message = none;
}

abbrev till : World
till = record {
  device = some (codes "blocked_sync");
  is_authenticated = true;
  license = some license;
  anchor = some (codes "3");
  company = some true;
  is_suspended = false;
  has_pos_feature = true;
  may_sell = true;
  connectivity = ConnectivityStatus.offline;
  backend_reachable = false;
}

-- The renewal carries the sale past the period and its grace, offline; then it ends.
sells_under_renewal : (evaluate read_digit Action.sell (pos 6) till).allowed ≡ true
unfolding evaluate assess assess_license decision denied permitted device_reason is_terminal
    can_device_perform text_eq license_state timestamp_or_null is_bad is_readable validated
    covered_renewal renewal_at coverage_grace continues connectivity_reason meets_connectivity ◌+ℤ◌
sells_under_renewal = refl

ends_with_renewal : (evaluate read_digit Action.sell (pos 7) till).reason ≡ some Reason.grace_ended
unfolding evaluate assess assess_license decision denied permitted device_reason is_terminal
    can_device_perform text_eq license_state timestamp_or_null is_bad is_readable validated
    covered_renewal renewal_at coverage_grace continues connectivity_reason meets_connectivity ◌+ℤ◌
ends_with_renewal = refl

blocked_for_sync :
    (evaluate read_digit Action.sync (pos 6) till).reason ≡ some Reason.device_blocked
unfolding evaluate assess decision denied device_reason is_terminal can_device_perform text_eq
blocked_for_sync = refl

evaluate-Permits_example : ((evaluate read_digit Action.sell (pos 6) till).allowed ≡ true) ↔ (
    (state : ValidatedLicenseState) × (license_state read_digit till.license till.anchor
      ≡ some state)
    × Permits Action.sell (pos 6) till state)
evaluate-Permits_example = evaluate-Permits read_digit Action.sell (pos 6) till

evaluate_independent_example :
    (evaluate read_digit Action.sell
        (pos 6)
        (record till { connectivity = ConnectivityStatus.online; backend_reachable = true })
      ≡ evaluate read_digit Action.sell (pos 6) till)
    × (evaluate read_digit Action.sync
          (pos 6)
          (record till { is_suspended = true; has_pos_feature = false; may_sell = false })
        ≡ evaluate read_digit Action.sync (pos 6) till)
evaluate_independent_example =
    evaluate_independent read_digit (pos 6) till ConnectivityStatus.online true true false false

-- The license's period ends at 4, and the covered renewal moves its end to 7.
abbrev renewed_state : ValidatedLicenseState
renewed_state = record {
  status = license;
  trusted_time_anchor = pos 3;
  expires_at = some (pos 7);
  grace_ends_at = none;
  next_validation_due_at = pos 9;
}

license_state_renewed :
    license_state read_digit (some license) (some (codes "3")) ≡ some renewed_state
unfolding license_state timestamp_or_null is_bad is_readable validated covered_renewal renewal_at
    coverage_grace continues
license_state_renewed = refl

license_state-NoEarlier_example :
    IsNoEarlier (some (pos 4)) (some (pos 7)) × IsAfter (some (pos 7)) none
unfolding timestamp_or_null
license_state-NoEarlier_example =
    license_state-NoEarlier read_digit license (some (codes "3")) renewed_state
      license_state_renewed

abbrev session : Owner
session = record { device_uuid = codes "d"; session_epoch = 1 }

abbrev answers : List Answer
answers = (some 4, false) ∷ (some 3, true) ∷ (none, true) ∷ (none, false) ∷ (some 9, true) ∷ []

older_and_relaxing_are_dropped :
    admit_all session none answers ≡ (some 4, false) ∷ (none, false) ∷ (some 9, true) ∷ []
unfolding admit_all admit_access_answer admit_owned current_sequence text_eq
older_and_relaxing_are_dropped = refl

admit_all-IsOrdered_example : IsOrdered (admit_all session none answers)
admit_all-IsOrdered_example = admit_all-IsOrdered session none answers

abbrev held : StoredBootstrapAccess
held = record {
  can_sell = true;
  can_sync = true;
  enabled_features = codes "pos" ∷ [];
  permissions = codes "pos.sell" ∷ [];
}

abbrev offered : BootstrapAccessParts
offered = record {
  can_sell = true;
  can_sync = false;
  features = (codes "pos", true) ∷ (codes "kitchen", false) ∷ [];
  permissions = codes "pos.sell" ∷ [];
}

bootstrap_relaxes-NoWider_example :
    (bootstrap_relaxes offered (some held) ≡ false) ↔ NoWider offered held
bootstrap_relaxes-NoWider_example = bootstrap_relaxes-NoWider offered held
