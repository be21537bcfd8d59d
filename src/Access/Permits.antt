-- ===== src/Access/Permits.antt =====
-- When `evaluate` (src/main/services/commercialAccess.service.ts) allows an action, against a list of
-- conditions that does not know the order of the checks.
use pos_desktop.Prelude.{
  ◌≡◌, refl, ap, subst, inl, inr, Bool, true, false, not, not-false, ◌&&◌, Option, none, some,
  Result, err, ok, refuse_if, refuse_if_lem, on_ok, ok-inj, Option-cases, ◌↔◌,
}
use pos_desktop.Prelude.Int.{ℤ, pos, ◌+ℤ◌, ltb_ℤ}
use pos_desktop.Prelude.Text.{Text}
use pos_desktop.Access.{
  Action, Reason, ConnectivityStatus, meets_connectivity, LicenseStatus, World,
  ValidatedLicenseState, choose, device_reason, connectivity_reason,
}
use pos_desktop.Access.License.{license_state}
use pos_desktop.Access.Evaluation.{
  deny_for, is_over, is_selling, is_unknown, is_inactive, clock_rollback_tolerance, assess_license,
  denied, permitted, decision, assess, evaluate,
}

-- The company is known and active; only a sync may do without one that is known.
abbrev pub IsCompanyReady : Action → Option Bool → Type 0
IsCompanyReady action none = is_selling action ≡ false
IsCompanyReady action (some active) = active ≡ true

-- What the license allows at an instant.
abbrev pub Licenses : Action → ℤ → ValidatedLicenseState → Type 0
Licenses action now state =
    (ltb_ℤ (now +ℤ pos clock_rollback_tolerance) state.trusted_time_anchor ≡ false)
    × (is_over state now ≡ false)
    × (ltb_ℤ now state.next_validation_due_at ≡ true)
    × (choose action state.status.can_sell state.status.can_sync ≡ true)

-- What selling asks of the account, the company and the subscription.
abbrev pub MaySell : World → Type 0
MaySell w = (w.is_suspended ≡ false) × (w.has_pos_feature ≡ true) × (w.may_sell ≡ true)

abbrev pub Permits : Action → ℤ → World → ValidatedLicenseState → Type 0
Permits action now w state =
    (device_reason w.device action ≡ none)
    × (w.is_authenticated ≡ true)
    × Licenses action now state
    × IsCompanyReady action w.company
    × (is_selling action ≡ true → MaySell w)
    × (connectivity_reason action w.connectivity w.backend_reachable ≡ none)

deny_for_lem :
    (r : Option Reason) (s : Option LicenseStatus) {u : Unit} → deny_for r s ≡ ok u → r ≡ none
deny_for_lem none s h = refl
deny_for_lem (some reason) s h = cc

-- The three checks that only a sale has.
selling :
    (action : Action) (w : World)
    → (is_selling action && w.is_suspended) ≡ false
    → (is_selling action && not w.has_pos_feature) ≡ false
    → (is_selling action && not w.may_sell) ≡ false
    → is_selling action ≡ true
    → MaySell w
selling Action.sell w h k l e = (h, not-false w.has_pos_feature k, not-false w.may_sell l)
selling Action.sync w h k l e = cc

may_sell_back :
    (action : Action) (w : World)
    → (is_selling action ≡ true → MaySell w)
    → ((is_selling action && w.is_suspended) ≡ false)
      × ((is_selling action && not w.has_pos_feature) ≡ false)
      × ((is_selling action && not w.may_sell) ≡ false)
may_sell_back Action.sell w h = let (a, b, c) = h refl in (a, ap not b, ap not c)
may_sell_back Action.sync w h = (refl, refl, refl)

company_ready :
    (action : Action) (c : Option Bool)
    → (is_selling action && is_unknown c) ≡ false
    → is_inactive c ≡ false
    → IsCompanyReady action c
company_ready Action.sell none h k = h
company_ready Action.sync none h k = refl
company_ready action (some active) h k = not-false active k

company_ready_back :
    (action : Action) (c : Option Bool)
    → IsCompanyReady action c
    → ((is_selling action && is_unknown c) ≡ false) × (is_inactive c ≡ false)
company_ready_back Action.sell none h = (h, refl)
company_ready_back Action.sync none h = (refl, refl)
company_ready_back Action.sell (some active) h = (refl, ap not h)
company_ready_back Action.sync (some active) h = (refl, ap not h)

-- What the checks after the license let through.
abbrev Passes : Action → ℤ → World → ValidatedLicenseState → Type 0
Passes action now w state =
    Licenses action now state
    × IsCompanyReady action w.company
    × (is_selling action ≡ true → MaySell w)
    × (connectivity_reason action w.connectivity w.backend_reachable ≡ none)

assess_license-Passes :
    (action : Action) (now : ℤ) (w : World) (state : ValidatedLicenseState)
    {s : ValidatedLicenseState}
    → assess_license action now w state ≡ ok s
    → (state ≡ s) × Passes action now w state
unfolding assess_license
assess_license-Passes action now w state h =
    let status = some state.status in
    on_ok
      (refuse_if (ltb_ℤ (now +ℤ pos clock_rollback_tolerance) state.trusted_time_anchor)
        (Reason.clock_untrusted, status))
      _ h
      λ u1 clock h1.
        on_ok (refuse_if (is_over state now) (Reason.grace_ended, status)) _ h1 λ u2 running h2.
          on_ok
            (refuse_if (not (ltb_ℤ now state.next_validation_due_at))
              (Reason.validation_overdue, status))
            _ h2
            λ u3 due h3.
              on_ok
                (refuse_if (is_selling action && is_unknown w.company)
                  (Reason.bootstrap_incomplete, status))
                _ h3
                λ u4 known h4.
                  on_ok (refuse_if (is_inactive w.company) (Reason.company_inactive, status)) _ h4
                    λ u5 active h5.
                      on_ok
                        (refuse_if (is_selling action && w.is_suspended)
                          (Reason.company_suspended, status))
                        _ h5
                        λ u6 running_company h6.
                          on_ok
                            (refuse_if (is_selling action && not w.has_pos_feature)
                              (Reason.feature_not_enabled, status))
                            _ h6
                            λ u7 feature h7.
                              on_ok
                                (refuse_if
                                  (not (choose action state.status.can_sell state.status.can_sync))
                                  (Reason.license_denied, status))
                                _ h7
                                λ u8 licensed h8.
                                  on_ok
                                    (refuse_if (is_selling action && not w.may_sell)
                                      (Reason.permission_denied, status))
                                    _ h8
                                    λ u9 permission h9.
                                      on_ok
                                        (deny_for
                                          (connectivity_reason action w.connectivity
                                            w.backend_reachable)
                                          status)
                                        _ h9
                                        λ u10 connected fin. (
                                          ok-inj fin,
                                          (
                                            (
                                              refuse_if_lem _ _ clock,
                                              refuse_if_lem _ _ running,
                                              not-false _ (refuse_if_lem _ _ due),
                                              not-false _ (refuse_if_lem _ _ licensed),
                                            ),
                                            company_ready action w.company (refuse_if_lem _ _ known)
                                                (refuse_if_lem _ _ active),
                                            selling action w (refuse_if_lem _ _ running_company)
                                                (refuse_if_lem _ _ feature)
                                                (refuse_if_lem _ _ permission),
                                            deny_for_lem
                                                (connectivity_reason action w.connectivity
                                                  w.backend_reachable)
                                                status connected,
                                          ),
                                        )

assess_license-ok :
    (action : Action) (now : ℤ) (w : World) (state : ValidatedLicenseState)
    → Passes action now w state
    → assess_license action now w state ≡ ok state
unfolding assess_license
assess_license-ok action now w state ((clock, running, due, licensed), company, sale, connected) =
    let (known, active) = company_ready_back action w.company company in
    let (suspended, feature, permission) = may_sell_back action w sale in
    rw (clock, running, due, known, active, suspended, feature, licensed, permission, connected)
      refl

decision-ok :
    (action : Action) (now : ℤ) (r : Result (Reason × Option LicenseStatus) ValidatedLicenseState)
    → (decision action now r).allowed ≡ true
    → (s : ValidatedLicenseState) × (r ≡ ok s)
unfolding decision denied permitted
decision-ok action now (err (reason, status)) h = cc
decision-ok action now (ok state) h = (state, refl)

allowed_when :
    (action : Action) (now : ℤ) (r : Result (Reason × Option LicenseStatus) ValidatedLicenseState)
    (s : ValidatedLicenseState)
    → r ≡ ok s
    → (decision action now r).allowed ≡ true
unfolding decision permitted
allowed_when action now r s h = rw h refl

module _ (parse_date : Text → Option ℤ) where
  assess-Permits :
      (action : Action) (now : ℤ) (w : World) (s : ValidatedLicenseState)
      → assess parse_date action now w ≡ ok s
      → (license_state parse_date w.license w.anchor ≡ some s) × Permits action now w s
  unfolding assess
  assess-Permits action now w s h =
      on_ok (deny_for (device_reason w.device action) none) _ h λ u device h1.
        on_ok (refuse_if (not w.is_authenticated) (Reason.session_invalid, none)) _ h1
          λ v session h2. elim (Option-cases (license_state parse_date w.license w.anchor)) [
            | inl absent ↦ absurd (cc (rw absent at h2))
            | inr (state, found) ↦
                let (same, passes) = assess_license-Passes action now w state (rw found at h2) in
                let (licenses, company, sale, connected) = passes in
                subst
                  (λ x.
                    (license_state parse_date w.license w.anchor ≡ some x) × Permits action now w x)
                  same
                  (
                    found,
                    (
                      deny_for_lem (device_reason w.device action) none device,
                      not-false w.is_authenticated (refuse_if_lem _ _ session),
                      licenses,
                      company,
                      sale,
                      connected,
                    ),
                  )
          ]

  assess-ok :
      (action : Action) (now : ℤ) (w : World) (s : ValidatedLicenseState)
      → license_state parse_date w.license w.anchor ≡ some s
      → Permits action now w s
      → assess parse_date action now w ≡ ok s
  unfolding assess
  assess-ok action now w s found (device, session, licenses, company, sale, connected) =
      let signed_in : not w.is_authenticated ≡ false = ap not session in
      rw (device, signed_in, found)
        (assess_license-ok action now w s (licenses, company, sale, connected))

  -- An action is allowed exactly when there is a readable license and every condition holds: the
  -- device may do it, the session is signed in, the clock is not behind the trusted anchor by more
  -- than the tolerance, neither the period with its grace nor the validation deadline is over, the
  -- license grants it, the company is active and, for a sale, known, not suspended, subscribed to
  -- the feature and the account permitted, and the network suffices.
  pub evaluate-Permits :
      (action : Action) (now : ℤ) (w : World)
      → ((evaluate parse_date action now w).allowed ≡ true) ↔ (
          (state : ValidatedLicenseState) × (license_state parse_date w.license w.anchor
            ≡ some state)
          × Permits action now w state)
  unfolding evaluate
  evaluate-Permits action now w = (
    λ h.
        let (s, passed) = decision-ok action now (assess parse_date action now w) h in
        let (found, permits) = assess-Permits action now w s passed in (s, found, permits),
    λ (s, found, permits).
        allowed_when action now (assess parse_date action now w) s
          (assess-ok action now w s found permits),
  )

connectivity_reason-sell :
    (status : ConnectivityStatus) (reachable : Bool)
    → connectivity_reason Action.sell status reachable ≡ none
unfolding connectivity_reason meets_connectivity
connectivity_reason-sell ConnectivityStatus.checking reachable = refl
connectivity_reason-sell status reachable = refl

module _ (parse_date : Text → Option ℤ) where
  -- Whether a sale is allowed does not depend on the network, and whether a sync is allowed does not
  -- depend on the suspension, the feature or the permission to sell: the decisions are the same in
  -- every field.
  pub evaluate_independent :
      (now : ℤ) (w : World) (network : ConnectivityStatus) (reachable suspended feature may : Bool)
      → (evaluate parse_date Action.sell now
            (record w { connectivity = network; backend_reachable = reachable })
          ≡ evaluate parse_date Action.sell now w)
        × (evaluate parse_date Action.sync now
              (record w { is_suspended = suspended; has_pos_feature = feature; may_sell = may })
            ≡ evaluate parse_date Action.sync now w)
  unfolding evaluate assess assess_license
  evaluate_independent now w network reachable suspended feature may = (
    rw
        (
          connectivity_reason-sell network reachable,
          connectivity_reason-sell w.connectivity w.backend_reachable,
        )
        refl,
    refl,
  )
