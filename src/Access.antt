-- ===== src/Access.antt =====
-- Commercial access (src/main/services/commercialAccess.service.ts, with
-- src/shared/constants/deviceStatuses.ts and src/shared/contracts/connectivityPolicy.contract.ts):
-- whether this till may sell or sync at an instant. `Date.parse` is a parameter; an instant is the
-- integer that it gives. What the service reads through its readers is one record.
mod License
mod Evaluation
mod Permits
mod Renewal
mod Ordering
mod Relaxing
mod Stored
mod Tests
use pos_desktop.Prelude.{
  ℕ, Bool, true, false, not, ◌&&◌, ◌||◌, Option, none, some, List, [], ◌∷◌, length, ◌==◌,
  if◌then◌else◌, Result, err, ok, ◌>>=◌, ◌>>◌, refuse_if,
}
use pos_desktop.Prelude.Int.{ℤ, pos, negsuc, ◌+ℤ◌, ltb_ℤ}
use pos_desktop.Prelude.Text.{Text, text_eq, codes}

pub data Action : Type 0 where
  sell sync : Action

pub data Reason : Type 0 where
  device_not_registered device_revoked device_blocked session_invalid clock_untrusted
        license_state_invalid :
      Reason
  grace_ended validation_overdue license_denied permission_denied bootstrap_incomplete
        company_inactive :
      Reason
  company_suspended feature_not_enabled connectivity_unavailable : Reason

pub data Warning : Type 0 where
  grace validation_due_soon : Warning

pub data ConnectivityStatus : Type 0 where
  checking offline backend_unreachable online : ConnectivityStatus

-- The fields of the stored license that the decision reads.
pub record OfflineCoverage : Type 0 where
  starts_at : Text
  expires_at : Text
  grace_ends_at : Option Text

pub record Subscription : Type 0 where
  expires_at : Option Text
  grace_ends_at : Option Text
  offline_coverage : Option OfflineCoverage

pub record LicenseStatus : Type 0 where
  can_sell : Bool
  can_sync : Bool
  server_time : Text
  validated_at : Text
  next_validation_due_at : Text
  subscription : Option Subscription
  restriction_level : Text
  warning_message : Option Text

-- What the readers return: the device's status, the session, the license, the trusted time anchor,
-- the company's activity, its suspension, the feature and the permission to sell, and the network.
pub record World : Type 0 where
  device : Option Text
  is_authenticated : Bool
  license : Option LicenseStatus
  anchor : Option Text
  company : Option Bool
  is_suspended : Bool
  has_pos_feature : Bool
  may_sell : Bool
  connectivity : ConnectivityStatus
  backend_reachable : Bool

pub record ValidatedLicenseState : Type 0 where
  status : LicenseStatus
  trusted_time_anchor : ℤ
  expires_at : Option ℤ
  grace_ends_at : Option ℤ
  next_validation_due_at : ℤ

pub record Decision : Type 0 where
  allowed : Bool
  reason : Option Reason
  warning : Option Warning
  action : Action
  retryable : Bool
  evaluated_at : ℤ
  next_validation_due_at : Option Text
  restriction_level : Option Text
  warning_message : Option Text

-- `isTerminalDeviceStatus`
unfoldable pub is_terminal : Text → Bool
is_terminal status = text_eq status (codes "revoked") || text_eq status (codes "retired")

abbrev pub choose : {A : Type 0} → Action → A → A → A
choose Action.sell a b = a
choose Action.sync a b = b

-- `canDevicePerformAction`: a status that is not in the table allows nothing.
unfoldable pub can_device_perform : Text → Action → Bool
can_device_perform status action =
    text_eq status (codes "active")
    || text_eq status (codes "blocked_selling") && choose action false true
    || text_eq status (codes "blocked_sync") && choose action true false

-- `meetsConnectivityPrecondition` at the action's policy: checkout is offline-capable, the sync needs
-- the network.
unfoldable pub meets_connectivity : Action → ConnectivityStatus → Bool → Bool
meets_connectivity Action.sell status reachable = true
meets_connectivity Action.sync ConnectivityStatus.online reachable = reachable
meets_connectivity Action.sync _ reachable = false

unfoldable pub device_reason : Option Text → Action → Option Reason
device_reason none action = some Reason.device_not_registered
device_reason (some status) action =
    if is_terminal status
    then some Reason.device_revoked
    else if can_device_perform status action
    then none
    else some Reason.device_blocked

unfoldable pub connectivity_reason : Action → ConnectivityStatus → Bool → Option Reason
connectivity_reason action ConnectivityStatus.checking reachable = none
connectivity_reason action status reachable =
    if meets_connectivity action status reachable
    then none
    else some Reason.connectivity_unavailable
