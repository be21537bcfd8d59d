-- ===== src/Access/Renewal.antt =====
-- The end that a license has, with a covered renewal or without (`licenseState` and `coveredRenewal`
-- of src/main/services/commercialAccess.service.ts).
use pos_desktop.Prelude.{
  ◌≡◌, sym, ◌&&◌, if◌then◌else◌, none, refl, subst, inl, inr, Bool, true, false, not, some-inj,
  Option, some, Bool-cases, Option-cases, arith,
}
use pos_desktop.Prelude.Int.{ℤ, ltb_ℤ, ◌≤ℤ◌}
use pos_desktop.Prelude.Text.{Text}
use pos_desktop.Access.{OfflineCoverage, Subscription, LicenseStatus, ValidatedLicenseState}
use pos_desktop.Access.License.{
  license_state, validated, is_readable, timestamp_or_null, expiry_text, grace_precedes, moved_end,
  some_before, coverage_grace, continues, renewal_at, covered_renewal,
}

not-true : (b : Bool) → not b ≡ true → b ≡ false
not-true false h = refl
not-true true h = cc

continues-Extends :
    (parse_date : Text → Option ℤ) (current starts expires : ℤ) (grace_end : Option ℤ)
    → continues parse_date current starts expires grace_end ≡ true
    → (ltb_ℤ current expires ≡ true) × (some_before grace_end expires ≡ false)
unfolding continues
continues-Extends parse_date current starts expires grace_end h = ground arith

module _ (parse_date : Text → Option ℤ) where
  renewal_at-Extends :
      (coverage : OfflineCoverage) (current : ℤ) (expires : ℤ) (grace_end : Option ℤ)
      → renewal_at parse_date coverage current ≡ some (expires, grace_end)
      → (ltb_ℤ current expires ≡ true) × (some_before grace_end expires ≡ false)
  unfolding renewal_at
  renewal_at-Extends coverage current expires grace_end h =
      elim (Option-cases (parse_date coverage.starts_at)) [
        | inl absent ↦ absurd (cc (rw (absent, renewal_at) at h))
        | inr (starts, e1) ↦ elim (Option-cases (parse_date coverage.expires_at)) [
          | inl absent ↦ absurd (cc (rw (e1, absent, renewal_at) at h))
          | inr (ends, e2) ↦
              elim (Option-cases (coverage_grace parse_date coverage.grace_ends_at)) [
                | inl absent ↦ absurd (cc (rw (e1, e2, absent, renewal_at) at h))
                | inr (g, e3) ↦ elim (Bool-cases (continues parse_date current starts ends g)) [
                  | inl fits ↦
                      let same : (ends, g) ≡ (expires, grace_end) =
                        some-inj (rw (e1, e2, e3, fits, renewal_at) at h) in
                      subst (λ p. (ltb_ℤ current p.0 ≡ true) × (some_before p.1 p.0 ≡ false)) same
                        (continues-Extends parse_date current starts ends g fits)
                  | inr fails ↦ absurd (cc (rw (e1, e2, e3, fails, renewal_at) at h))
                ]
              ]
        ]
      ]

  covered_renewal-Extends :
      (subscription : Subscription) (current expires : ℤ) (grace_end : Option ℤ)
      → covered_renewal parse_date (some subscription) (some current) ≡ some (expires, grace_end)
      → (ltb_ℤ current expires ≡ true) × (some_before grace_end expires ≡ false)
  unfolding covered_renewal
  covered_renewal-Extends subscription current expires grace_end h =
      elim (Option-cases (subscription.offline_coverage)) [
        | inl absent ↦ absurd (cc (rw (absent, covered_renewal) at h))
        | inr (coverage, found) ↦
            renewal_at-Extends coverage current expires grace_end (rw (found, covered_renewal) at h)
      ]

-- The end that a license has, against the end of its subscription.
abbrev pub IsNoEarlier : Option ℤ → Option ℤ → Type 0
IsNoEarlier none none = Unit
IsNoEarlier (some own) (some at) = own ≤ℤ at
IsNoEarlier _ _ = ⊥

-- A grace, if there is one, does not end before the license does.
abbrev pub IsAfter : Option ℤ → Option ℤ → Type 0
IsAfter (some expires) (some grace_end) = expires ≤ℤ grace_end
IsAfter _ _ = Unit

abbrev Sound : Option ℤ → Option ℤ × Option ℤ → Type 0
Sound own (expires, grace_end) = IsNoEarlier own expires × IsAfter expires grace_end

some_before-IsAfter :
    (expires : ℤ) (grace_end : Option ℤ)
    → some_before grace_end expires ≡ false
    → IsAfter (some expires) grace_end
some_before-IsAfter expires none h = tt
some_before-IsAfter expires (some g) h = ground (arith, h)

own-Sound :
    (parse_date : Text → Option ℤ) (expires grace_end : Option ℤ)
    → grace_precedes parse_date expires grace_end ≡ false
    → Sound expires (expires, grace_end)
own-Sound parse_date none none h = (tt, tt)
own-Sound parse_date none (some g) h = (tt, tt)
own-Sound parse_date (some e) none h = (ground arith, tt)
own-Sound parse_date (some e) (some g) h = (ground arith, ground (arith, h))

module _ (parse_date : Text → Option ℤ) where
  moved_end-Sound :
      (subscription : Option Subscription) (expires grace_end : Option ℤ)
      → grace_precedes parse_date expires grace_end ≡ false
      → Sound expires
          (moved_end parse_date (covered_renewal parse_date subscription expires) expires grace_end)
  unfolding covered_renewal
  moved_end-Sound none expires grace_end h = own-Sound parse_date expires grace_end h
  moved_end-Sound (some subscription) none grace_end h = own-Sound parse_date none grace_end h
  moved_end-Sound (some subscription) (some current) grace_end h =
      elim (Option-cases (covered_renewal parse_date (some subscription) (some current))) [
        | inl absent ↦
            subst (λ o. Sound (some current) (moved_end parse_date o (some current) grace_end))
              (sym absent) (own-Sound parse_date (some current) grace_end h)
        | inr ((expires, covered_grace), found) ↦
            let (later, grace) =
              covered_renewal-Extends parse_date subscription current expires covered_grace found in
            subst (λ o. Sound (some current) (moved_end parse_date o (some current) grace_end))
              (sym found) (ground (arith, later), some_before-IsAfter expires covered_grace grace)
      ]

  on_some :
      {A : Type 0} {B : Type 0} {R : Type 0} (o : Option A) (f : A → Option B) {b : B}
      → elim o [ none ↦ none | some x ↦ f x ] ≡ some b
      → ((x : A) → f x ≡ some b → R)
      → R
  on_some none f h k = cc
  on_some (some x) f h k = k x h

  validated-Sound :
      (status : LicenseStatus) (due anchor : ℤ)
      → is_readable parse_date status ≡ true
      → let v = validated parse_date status due anchor in
        Sound
          (timestamp_or_null parse_date (expiry_text parse_date status.subscription))
          (v.expires_at, v.grace_ends_at)
  unfolding validated is_readable
  validated-Sound status due anchor h = moved_end-Sound status.subscription _ _ (last _ _ _ h)
    where
      last : (a b c : Bool) → (not a && not b && not c) ≡ true → c ≡ false
      last a b c e = ground arith

  -- A license that is read has an end exactly if its subscription has one, and then no earlier one,
  -- whether a covered renewal moves it or not; and a grace that it has does not end before its end.
  pub license_state-NoEarlier :
      (status : LicenseStatus) (anchor_text : Option Text) (v : ValidatedLicenseState)
      → license_state parse_date (some status) anchor_text ≡ some v
      → IsNoEarlier
          (timestamp_or_null parse_date (expiry_text parse_date status.subscription))
          v.expires_at
        × IsAfter v.expires_at v.grace_ends_at
  unfolding license_state
  license_state-NoEarlier status anchor_text v h =
      on_some (parse_date status.server_time) _ h λ server h1.
        on_some (parse_date status.validated_at) _ h1 λ validated_at h2.
          on_some (parse_date status.next_validation_due_at) _ h2 λ due h3.
            on_some (timestamp_or_null parse_date anchor_text) _ h3
              λ anchor h4. read status due anchor (not (ltb_ℤ due validated_at)) h4
    where
      read :
          (status : LicenseStatus) (due anchor : ℤ) (b : Bool)
          → (if b && is_readable parse_date status
              then some (validated parse_date status due anchor)
              else none)
            ≡ some v
          → Sound
              (timestamp_or_null parse_date (expiry_text parse_date status.subscription))
              (v.expires_at, v.grace_ends_at)
      read status due anchor b e = elim (Bool-cases (b && is_readable parse_date status)) [
        | inl good ↦
            subst
              (λ (w : ValidatedLicenseState).
                Sound (timestamp_or_null parse_date (expiry_text parse_date status.subscription))
                  (w.expires_at, w.grace_ends_at))
              (some-inj (rw good at e))
              (validated-Sound status due anchor (second b (is_readable parse_date status) good))
        | inr bad ↦ absurd (cc (rw bad at e))
      ]
        where
          second : (a c : Bool) → (a && c) ≡ true → c ≡ true
          second a c g = ground arith
