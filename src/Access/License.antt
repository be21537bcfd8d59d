-- ===== src/Access/License.antt =====
-- What the stored license says: `licenseState` and `coveredRenewal` of
-- src/main/services/commercialAccess.service.ts.
use pos_desktop.Prelude.{
  Bool, true, false, not, ◌&&◌, Option, none, some, length, ◌==◌, if◌then◌else◌,
}
use pos_desktop.Prelude.Int.{ℤ, ltb_ℤ}
use pos_desktop.Prelude.Text.{Text}
use pos_desktop.Access.{OfflineCoverage, Subscription, LicenseStatus, ValidatedLicenseState}

abbrev pub some_before : Option ℤ → ℤ → Bool
some_before none now = false
some_before (some at) now = ltb_ℤ at now

module _ (parse_date : Text → Option ℤ) where
  -- `value ? timestamp(value) : null`
  unfoldable pub timestamp_or_null : Option Text → Option ℤ
  timestamp_or_null none = none
  timestamp_or_null (some text) = if length text == 0 then none else parse_date text

  -- `graceEndsAt === null ? null : timestamp(graceEndsAt)`, with whether that is a time or null.
  unfoldable pub coverage_grace : Option Text → Option (Option ℤ)
  coverage_grace none = some none
  coverage_grace (some text) = elim (parse_date text) [ none ↦ none | some at ↦ some (some at) ]

  -- The conditions of `coveredRenewal` on its three times.
  unfoldable pub continues : ℤ → ℤ → ℤ → Option ℤ → Bool
  continues current starts expires grace_end =
      not (ltb_ℤ starts current)
      && not (ltb_ℤ current starts)
      && ltb_ℤ starts expires
      && not (some_before grace_end expires)

  unfoldable pub renewal_at : OfflineCoverage → ℤ → Option (ℤ × Option ℤ)
  renewal_at coverage current = elim (parse_date coverage.starts_at) [
    | none ↦ none
    | some starts ↦ elim (parse_date coverage.expires_at) [
      | none ↦ none
      | some expires ↦ elim (coverage_grace coverage.grace_ends_at) [
        | none ↦ none
        | some grace_end ↦
            if continues current starts expires grace_end then some (expires, grace_end) else none
      ]
    ]
  ]

  unfoldable pub covered_renewal : Option Subscription → Option ℤ → Option (ℤ × Option ℤ)
  covered_renewal none current = none
  covered_renewal (some subscription) none = none
  covered_renewal (some subscription) (some current) = elim (subscription.offline_coverage) [
    | none ↦ none
    | some coverage ↦ renewal_at coverage current
  ]

  -- The stored times of a subscription; `bad` says that one is there and is no time.
  unfoldable pub is_bad : Option Text → Bool
  is_bad none = false
  is_bad (some text) = elim (timestamp_or_null (some text)) [ none ↦ true | some at ↦ false ]

  abbrev pub expiry_text : Option Subscription → Option Text
  expiry_text none = none
  expiry_text (some subscription) = subscription.expires_at

  abbrev pub grace_text : Option Subscription → Option Text
  grace_text none = none
  grace_text (some subscription) = subscription.grace_ends_at

  abbrev pub grace_precedes : Option ℤ → Option ℤ → Bool
  grace_precedes (some expires) (some grace_end) = ltb_ℤ grace_end expires
  grace_precedes _ _ = false

  -- A covered renewal takes the place of both ends.
  abbrev pub moved_end : Option (ℤ × Option ℤ) → Option ℤ → Option ℤ → Option ℤ × Option ℤ
  moved_end none expires grace_end = (expires, grace_end)
  moved_end (some (covered, covered_grace)) expires grace_end = (some covered, covered_grace)

  -- The state that `licenseState` returns for a stored license whose times are read.
  unfoldable pub validated : LicenseStatus → ℤ → ℤ → ValidatedLicenseState
  validated status due anchor =
      let expires = timestamp_or_null (expiry_text status.subscription) in
      let grace_end = timestamp_or_null (grace_text status.subscription) in
      let ends = moved_end (covered_renewal status.subscription expires) expires grace_end in
      record {
        status = status;
        trusted_time_anchor = anchor;
        expires_at = ends.0;
        grace_ends_at = ends.1;
        next_validation_due_at = due;
      }

  unfoldable pub is_readable : LicenseStatus → Bool
  is_readable status =
      let expires = timestamp_or_null (expiry_text status.subscription) in
      let grace_end = timestamp_or_null (grace_text status.subscription) in
      not (is_bad (expiry_text status.subscription))
      && not (is_bad (grace_text status.subscription))
      && not (grace_precedes expires grace_end)

  unfoldable pub license_state : Option LicenseStatus → Option Text → Option ValidatedLicenseState
  license_state none anchor_text = none
  license_state (some status) anchor_text = elim (parse_date status.server_time) [
    | none ↦ none
    | some server ↦ elim (parse_date status.validated_at) [
      | none ↦ none
      | some validated_at ↦ elim (parse_date status.next_validation_due_at) [
        | none ↦ none
        | some due ↦ elim (timestamp_or_null anchor_text) [
          | none ↦ none
          | some anchor ↦
              if not (ltb_ℤ due validated_at) && is_readable status
              then some (validated status due anchor)
              else none
        ]
      ]
    ]
  ]
