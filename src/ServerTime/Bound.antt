-- ===== src/ServerTime/Bound.antt =====
-- What the estimator of src/main/sync/serverTimeEstimator.ts promises of its bound. With dates up to
-- 8.64e15 ms, the limit is 2^53 ms and the error half a millisecond; up to 2^41 ms (the year 2039), it
-- is 2^-13 ms.
use pos_desktop.Prelude.{
  ℕ, ◌+◌, ◌-◌, ◌*◌, ◌/◌, ◌≤◌, ◌≡◌, inl, inr, Bool, ltb, subst, some-inj, false, ◌||◌, Option, none,
  some, List, [], ◌∷◌, Bool-cases, arith, All, if_cases, option_cases,
}
use pos_desktop.Prelude.Text.{Text}
use native.Mathlib.Nat.{mul-le-mul_right}
use pos_desktop.ServerTime.{
  ServerTimeSampleInput, Sample, ServerTimeEstimator, new_estimator, Offered, offer, offer_at,
  invalidate, bound_of, bound_at, lower_bound, on_sample, off_sample, Call, offered, invalidated,
  listened, unlistened, step, run, is_bad_round_trip, is_unusable, is_not_newer, age_of, Doubles,
  server_time_max_age_ms, server_time_drift_ppm,
}

-- The server's clock, at each monotonic reading, runs at most 100 ppm slower than the readings. It may
-- gain on them, as it does when the readings stop during a suspension.
abbrev pub KeepsPace : (ℕ → ℕ) → Type 0
KeepsPace server = (m n : ℕ) → m ≤ n → server m * 10000 + (n - m) * 9999 ≤ server n * 10000

-- For doubles up to a limit, a sum or a difference is rounded up by at most an error, and the drift of
-- an age is, but for the error, no less than 100 ppm of it.
abbrev pub Rounds : Doubles → ℕ → ℕ → Type 0
Rounds d limit error =
    ((a b : ℕ) → a + b ≤ limit → d.plus a b ≤ a + b + error)
    × ((a b : ℕ) → a ≤ limit + error → d.minus a b ≤ a - b + error)
    × ((age : ℕ)
        → age ≤ limit
        → age ≤ (d.times (d.times age (server_time_drift_ppm * d.one)) d.millionth + error) * 10000)

usable_lem : (before old : Bool) → (before || old) ≡ false → (before ≡ false) × (old ≡ false)
usable_lem before old h = ground arith

not_less : (m n : ℕ) → ltb m n ≡ false → n ≤ m
not_less m n h = ground arith

module _ (d : Doubles) (parse_date : Text → Option ℕ) (server : ℕ → ℕ) (limit : ℕ) where
  -- The server answered a time that it had reached at some reading between the two of the sample, and
  -- that is below the limit by more than the greatest age.
  abbrev pub IsHonest : Call → Type 0
  IsHonest (offered input) =
      (s : ℕ)
      → parse_date input.server_time ≡ some s
      → (s * d.one + server_time_max_age_ms * d.one ≤ limit)
        × ((m : ℕ) × (input.sent_at_mono ≤ m)
            × (m ≤ input.received_at_mono)
            × (s * d.one ≤ server m))
  IsHonest invalidated = Unit
  IsHonest (listened l) = Unit
  IsHonest (unlistened l) = Unit

  -- A sample's second had come at the server when it was received.
  abbrev IsReached : Option Sample → Type 0
  IsReached none = Unit
  IsReached (some sample) =
      (sample.server_ms * d.one + server_time_max_age_ms * d.one ≤ limit)
      × (sample.server_ms * d.one ≤ server sample.received_at_mono)

  module _ (pace : KeepsPace server) where
    floor_reached :
        (s m received : ℕ)
        → m ≤ received
        → s * d.one + server_time_max_age_ms * d.one ≤ limit
        → s * d.one ≤ server m
        → (((s / 1000) * 1000) * d.one + server_time_max_age_ms * d.one ≤ limit)
          × (((s / 1000) * 1000) * d.one ≤ server received)
    floor_reached s m received le low reached =
        let later : server m * 10000 + (received - m) * 9999 ≤ server received * 10000 =
          pace m received le in
        let down : ((s / 1000) * 1000) * d.one ≤ s * d.one = mul-le-mul_right d.one (omega arith) in
        (omega (arith, down, low), omega (arith, down, reached, later))

    offer_at-IsReached :
        (estimator : ServerTimeEstimator) (input : ServerTimeSampleInput) (s m : ℕ)
        → m ≤ input.received_at_mono
        → s * d.one + server_time_max_age_ms * d.one ≤ limit
        → s * d.one ≤ server m
        → IsReached estimator.sample
        → IsReached ((offer_at d estimator input s).estimator.sample)
    unfolding offer_at
    offer_at-IsReached estimator input s m le low reached before =
        if_cases (λ (o : Offered). IsReached (o.estimator.sample))
          (is_bad_round_trip d input || is_not_newer estimator.sample input) (λ bad. before)
          (λ good. floor_reached s m input.received_at_mono le low reached)

    step-IsReached :
        (call : Call) (estimator : ServerTimeEstimator)
        → IsHonest call
        → IsReached estimator.sample
        → IsReached ((step d parse_date call estimator).sample)
    unfolding offer invalidate on_sample off_sample
    step-IsReached (offered input) estimator honest before =
        option_cases (λ (o : Offered). IsReached (o.estimator.sample))
          (parse_date input.server_time) (λ bad. before)
          (λ s parsed.
            let (low, (m, sent, received, reached)) = honest s parsed in
            offer_at-IsReached estimator input s m received low reached before)
    step-IsReached invalidated estimator honest before = tt
    step-IsReached (listened l) estimator honest before = before
    step-IsReached (unlistened l) estimator honest before = before

    run-IsReached :
        (calls : List Call) (estimator : ServerTimeEstimator)
        → All IsHonest calls
        → IsReached estimator.sample
        → IsReached ((run d parse_date calls estimator).sample)
    unfolding run
    run-IsReached [] estimator honest before = before
    run-IsReached (call ∷ calls) estimator (first, later) before =
        run-IsReached calls (step d parse_date call estimator) later
          (step-IsReached call estimator first before)

    module _ (error : ℕ) (rounds : Rounds d limit error) where
      bound_of-le :
          (sample : Sample) (now : ℕ)
          → now ≤ limit
          → IsReached (some sample)
          → is_unusable d sample now ≡ false
          → bound_of d sample (age_of d sample now) ≤ server now + 4 * error
      unfolding bound_of
      bound_of-le sample now low (room, reached) usable =
          let (sums, differences, drifts) = rounds in
          let age = age_of d sample now in
          let second = sample.server_ms * d.one in
          let drift = d.times (d.times age (server_time_drift_ppm * d.one)) d.millionth in
          let (after, young) = usable_lem _ _ usable in
          let le : sample.received_at_mono ≤ now = not_less now sample.received_at_mono after in
          let recent : age ≤ server_time_max_age_ms * d.one = not_less _ age young in
          let later : server sample.received_at_mono * 10000
                + (now - sample.received_at_mono) * 9999
              ≤ server now * 10000 =
            pace sample.received_at_mono now le in
          let aged : age ≤ now - sample.received_at_mono + error =
            differences now sample.received_at_mono (omega (arith, low)) in
          let drifted : age ≤ (drift + error) * 10000 = drifts age (omega (arith, recent, room)) in
          let summed : d.plus second age ≤ second + age + error =
            sums second age (omega (arith, recent, room)) in
          let bounded : d.minus (d.plus second age) drift ≤ d.plus second age - drift + error =
            differences (d.plus second age) drift (omega (arith, summed, recent, room)) in
          omega (arith, le, aged, drifted, summed, bounded, later, reached)

      bound_at-le :
          (sample : Option Sample) (now bound : ℕ)
          → now ≤ limit
          → IsReached sample
          → bound_at d sample now ≡ some bound
          → bound ≤ server now + 4 * error
      unfolding bound_at
      bound_at-le none now bound low reached h = absurd (cc (h))
      bound_at-le (some sample) now bound low reached h =
          elim (Bool-cases (is_unusable d sample now)) [
            | inl unusable ↦ absurd (cc (rw unusable at h))
            | inr usable ↦
                subst (λ n. n ≤ server now + 4 * error) (some-inj (rw usable at h))
                  (bound_of-le sample now low reached usable)
          ]

      -- Let the server answer times that it has reached between the two readings of a sample, and its
      -- clock run at most 100 ppm slower than the readings. Let, up to a limit, a sum and a difference
      -- of doubles be above the exact one by at most an error, and the drift of an age below 100 ppm
      -- of it by at most the same; and let the limit be no less than the reading, and than every time
      -- answered and the greatest age. Then, after any calls from a new estimator, a bound is later
      -- than the server's time at the reading by at most four errors.
      pub lower_bound-le :
          (calls : List Call) (now bound : ℕ)
          → now ≤ limit
          → All IsHonest calls
          → lower_bound d (run d parse_date calls new_estimator) now ≡ some bound
          → bound ≤ server now + 4 * error
      unfolding lower_bound
      lower_bound-le calls now bound low honest h =
          bound_at-le ((run d parse_date calls new_estimator).sample) now bound low
            (run-IsReached calls new_estimator honest tt) h
