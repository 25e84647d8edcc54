-- ===== src/Backtest/Examples.antt =====
-- A backtest of two matches: amounts of money and probabilities in hundredths, a sure winner, and
-- a client without results.
pub mod Bets
pub mod Settings
use calculated_tennis.Base.{
  ℕ, ◌+◌, ◌-◌, ◌*◌, ◌/◌, ◌^◌, Bool, true, false, Option, none, some, List, [], ◌∷◌, ltb, leb, Text,
  codes, ℤ, pos, negsuc, Float64,
}
use calculated_tennis.Tennis.State.{default_format}
use calculated_tennis.MoneyManager.Decimals.{Decimal}
use calculated_tennis.TennisAbstract.Dates.{Time}
use calculated_tennis.TennisAbstract.Surfaces.{Process, hard, clay}
use calculated_tennis.TennisAbstract.Rates.{MatchWithOdds, PlayerRatesMap, Client}
use calculated_tennis.Backtest.Config.{BacktestConfig, singles}
use calculated_tennis.Backtest.Stats.{no_stats}
use calculated_tennis.Backtest.Log.{StrategyBetLog, Track}
use calculated_tennis.Backtest.Stakes.{Conversions}

abbrev pub cents : Float64
cents = record {
  F = ℕ;
  zero = 0;
  one = 100;
  two = 200;
  half = 50;
  lt = ltb;
  le = leb;
  add = λ x y. x + y;
  sub = λ x y. x - y;
  div = λ x y. x * 100 / y;
  pow = λ x y. x;
  mul = λ x y. x * y / 100;
  neg = λ x. 0;
  of_int = elim [ pos n ↦ 100 * n | negsuc n ↦ 0 ];
  literal = λ n k. 100 * n / 10 ^ k;
}

abbrev pub millionths : Decimal
millionths = record {
  D = ℕ;
  of_int = λ n. n * 1000000;
  of_micro = elim [ pos n ↦ n | negsuc n ↦ 0 ];
  five_percent = 50000;
  parse = λ _. some 20000000;
  is_positive = λ a. ltb 0 a;
  is_negative = λ a. false;
  greater = λ a b. ltb b a;
  less = ltb;
  mul = λ a b. a * b / 1000000;
  sub = ◌-◌;
  div = λ a b. a * 1000000 / b;
  truncate = λ a. a / 10000 * 10000;
}

abbrev pub by_cents : Conversions cents millionths
by_cents = record {
  of_float = λ x. some (x * 10000);
  to_float = λ d. d / 10000;
  add = ◌+◌;
  round = λ d. pos (d / 1000000);
}

abbrev pub plain : ℕ → ℕ → Text
plain x n = x ∷ []

abbrev pub bare : Process cents
bare = record { getenv = λ _. []; parse_float = λ _. some 150 }

abbrev pub today : Time
today = record { day = 739000; clock = 0 }

abbrev pub no_client : Client cents
no_client name as_of limit = none

abbrev pub rates : PlayerRatesMap cents
rates =
    (codes "AnnA", record { hold = 100; breaks = 100; dr = 100 })
    ∷ (codes "BobB", record { hold = 0; breaks = 0; dr = 100 })
    ∷ []

abbrev pub first_match : MatchWithOdds cents
first_match = record {
  tourney_id = codes "2025-1";
  surface = hard;
  player_a = codes "Ann A";
  player_b = codes "Bob B";
  player_a_slug = codes "AnnA";
  player_b_slug = codes "BobB";
  match_format = default_format;
  score = codes "6-0 6-0";
  tourney_date = 20250106;
  match_num = pos 1;
  avg_w = 150;
  avg_l = 250;
}

-- No rates are known for its players.
abbrev pub second_match : MatchWithOdds cents
second_match = record {
  tourney_id = codes "2025-1";
  surface = clay;
  player_a = codes "Cat C";
  player_b = codes "Dan D";
  player_a_slug = codes "CatC";
  player_b_slug = codes "DanD";
  match_format = default_format;
  score = codes "6-0 6-0";
  tourney_date = 20250106;
  match_num = pos 2;
  avg_w = 120;
  avg_l = 350;
}

abbrev pub draws : Option (ℕ → ℕ)
draws = some (λ t. 0)

abbrev pub settings : BacktestConfig cents
settings = record {
  sims = pos 1;
  alpha = 100;
  min_pick = 60;
  min_odds = 0;
  require_positive_ev = true;
  stake = 100;
  money_manager = none;
  bet_log_dir = codes "logs";
  bet_mode = singles;
  max_parlay_matches = pos 2;
}

abbrev pub new_track : Track cents
new_track = record { stats = no_stats cents 2; log = some (record { initial = 0; rows = [] }) }
