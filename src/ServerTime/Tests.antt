-- ===== src/ServerTime/Tests.antt =====
-- The estimator at concrete calls.
use pos_desktop.Prelude.{
  ℕ, ◌+◌, ◌-◌, ◌*◌, ◌/◌, ◌≤◌, ◌≡◌, refl, Option, none, some, List, [], ◌∷◌, arith, All,
}
use pos_desktop.Prelude.Text.{Text, codes}
use pos_desktop.ServerTime.{
  Doubles, Call, offered, listened, new_estimator, run, lower_bound, offer, offer_at, bound_of,
  bound_at, on_sample,
}
use pos_desktop.ServerTime.Bound.{KeepsPace, Rounds, IsHonest, lower_bound-le}

-- Whole nanoseconds, with products rounded down.
abbrev nanoseconds : Doubles
nanoseconds = record {
  one = 1000000;
  plus = λ a b. a + b;
  minus = λ a b. a - b;
  times = λ a b. a * b / 1000000;
  millionth = 1;
}

abbrev limit : ℕ
limit = 30000000000000

nanoseconds-Rounds : Rounds nanoseconds limit 1
nanoseconds-Rounds = (λ a b h. omega arith, λ a b h. omega arith, λ age h. omega arith)

abbrev parse_date : Text → Option ℕ
parse_date [] = none
parse_date (c ∷ text) = some 48000

abbrev server : ℕ → ℕ
server m = m + 48000000000

abbrev calls : List Call
calls =
    listened 1
    ∷ offered (record { server_time = codes "48"; sent_at_mono = 0; received_at_mono = 2000000 })
    ∷ []

server-KeepsPace : KeepsPace server
server-KeepsPace m n le = omega arith

calls-IsHonest : All (IsHonest nanoseconds parse_date server limit) calls
calls-IsHonest = (
  tt,
  (
    λ s h.
        let value : 48000 ≡ s = ground (arith, h) in
        (omega (arith, value), (0, omega arith, omega arith, omega (arith, value))),
    tt,
  ),
)

bound_lem :
    lower_bound nanoseconds (run nanoseconds parse_date calls new_estimator) 12000000
    ≡ some 48009999000
unfolding lower_bound run offer offer_at bound_at bound_of on_sample
bound_lem = refl

lower_bound-le_example : 48009999000 ≤ server 12000000 + 4 * 1
lower_bound-le_example =
    lower_bound-le nanoseconds parse_date server limit server-KeepsPace 1 nanoseconds-Rounds calls
      12000000 48009999000 (omega arith) calls-IsHonest bound_lem
