-- ===== src/ServerTime.antt =====
-- The lower bound on the server's time (src/main/sync/serverTimeEstimator.ts), with the options that
-- the program leaves at their defaults. Milliseconds are doubles, whose arithmetic is a parameter: a
-- double that is not negative is a number of some unit, of which `one` make a millisecond. A
-- difference has the sign of the exact one. `Date.parse` is a parameter, on instants from 1970 on; a
-- listener is a name.
pub mod Bound
mod Tests
use pos_desktop.Prelude.{
  ℕ, ◌-◌, ◌*◌, ◌/◌, ◌≡◌, Bool, true, false, not, ◌||◌, Option, none, some, List, [], ◌∷◌, ◌++◌, any,
  filter, ltb, leb, ◌==◌, if◌then◌else◌,
}
use pos_desktop.Prelude.Text.{Text}

-- The sum, the difference and the product of two doubles, and the double `1e-6`.
pub record Doubles : Type 0 where
  pub one : ℕ
  pub plus : ℕ → ℕ → ℕ
  pub minus : ℕ → ℕ → ℕ
  pub times : ℕ → ℕ → ℕ
  pub millionth : ℕ

abbrev server_time_max_round_trip_ms : ℕ
server_time_max_round_trip_ms = 5000

abbrev pub server_time_max_age_ms : ℕ
server_time_max_age_ms = 6 * 3600000

abbrev pub server_time_drift_ppm : ℕ
server_time_drift_ppm = 100

pub record ServerTimeSampleInput : Type 0 where
  pub server_time : Text
  pub sent_at_mono : ℕ
  pub received_at_mono : ℕ

-- `AcceptedSample`
pub record Sample : Type 0 where
  pub server_ms : ℕ
  pub received_at_mono : ℕ

pub record ServerTimeEstimator : Type 0 where
  pub sample : Option Sample
  listeners : List ℕ

abbrev pub new_estimator : ServerTimeEstimator
new_estimator = record { sample = none; listeners = [] }

-- `new Set().add` and `delete`
abbrev add_listener : ℕ → List ℕ → List ℕ
add_listener listener listeners =
    if any (λ l. l == listener) listeners then listeners else listeners ++ listener ∷ []

-- What `offer` returns, and the listeners that it calls.
pub record Offered : Type 0 where
  accepted : Bool
  called : List ℕ
  pub estimator : ServerTimeEstimator

abbrev refused : ServerTimeEstimator → Offered
refused estimator = record { accepted = false; called = []; estimator = estimator }

-- `sentAtMono` after `receivedAtMono`, or a round trip longer than is allowed.
abbrev pub is_bad_round_trip : Doubles → ServerTimeSampleInput → Bool
is_bad_round_trip d input =
    ltb input.received_at_mono input.sent_at_mono
    || ltb (server_time_max_round_trip_ms * d.one)
        (d.minus input.received_at_mono input.sent_at_mono)

abbrev pub is_not_newer : Option Sample → ServerTimeSampleInput → Bool
is_not_newer none input = false
is_not_newer (some sample) input = leb input.received_at_mono sample.received_at_mono

-- `offer` on a server time that parses.
unfoldable pub offer_at : Doubles → ServerTimeEstimator → ServerTimeSampleInput → ℕ → Offered
offer_at d estimator input server_ms =
    if is_bad_round_trip d input || is_not_newer estimator.sample input
    then refused estimator
    else record {
      accepted = true;
      called = estimator.listeners;
      estimator = record {
        sample = some (record {
          server_ms = (server_ms / 1000) * 1000;
          received_at_mono = input.received_at_mono;
        });
        listeners = estimator.listeners;
      };
    }

module _ (d : Doubles) (parse_date : Text → Option ℕ) where
  unfoldable pub offer : ServerTimeEstimator → ServerTimeSampleInput → Offered
  offer estimator input = elim (parse_date input.server_time) [
    | none ↦ refused estimator
    | some server_ms ↦ offer_at d estimator input server_ms
  ]

unfoldable pub invalidate : ServerTimeEstimator → ServerTimeEstimator
invalidate estimator = record { sample = none; listeners = estimator.listeners }

module _ (d : Doubles) where
  -- The bound of a sample at an age.
  unfoldable pub bound_of : Sample → ℕ → ℕ
  bound_of sample age =
      d.minus (d.plus (sample.server_ms * d.one) age)
        (d.times (d.times age (server_time_drift_ppm * d.one)) d.millionth)

  abbrev pub age_of : Sample → ℕ → ℕ
  age_of sample now = d.minus now sample.received_at_mono

  -- A reading before the sample's, or more than the greatest age after it.
  abbrev pub is_unusable : Sample → ℕ → Bool
  is_unusable sample now =
      ltb now sample.received_at_mono || ltb (server_time_max_age_ms * d.one) (age_of sample now)

  unfoldable pub bound_at : Option Sample → ℕ → Option ℕ
  unfolding bound_of
  bound_at none now = none
  bound_at (some sample) now =
      if is_unusable sample now then none else some (bound_of sample (age_of sample now))

  -- `lowerBound`, at a monotonic reading.
  unfoldable pub lower_bound : ServerTimeEstimator → ℕ → Option ℕ
  unfolding bound_at
  lower_bound estimator now = bound_at estimator.sample now

unfoldable pub on_sample : ServerTimeEstimator → ℕ → ServerTimeEstimator
on_sample estimator listener = record {
  sample = estimator.sample;
  listeners = add_listener listener estimator.listeners;
}

-- The function that `onSample` returns.
unfoldable pub off_sample : ServerTimeEstimator → ℕ → ServerTimeEstimator
off_sample estimator listener = record {
  sample = estimator.sample;
  listeners = filter (λ l. not (l == listener)) estimator.listeners;
}

-- The calls on an estimator.
pub data Call : Type 0 where
  offered : ServerTimeSampleInput → Call
  invalidated : Call
  listened : ℕ → Call
  unlistened : ℕ → Call

module _ (d : Doubles) (parse_date : Text → Option ℕ) where
  abbrev pub step : Call → ServerTimeEstimator → ServerTimeEstimator
  step (offered input) estimator = (offer d parse_date estimator input).estimator
  step invalidated estimator = invalidate estimator
  step (listened listener) estimator = on_sample estimator listener
  step (unlistened listener) estimator = off_sample estimator listener

  unfoldable pub run : List Call → ServerTimeEstimator → ServerTimeEstimator
  run [] estimator = estimator
  run (call ∷ calls) estimator = run calls (step call estimator)
