-- ===== src/Lib.antt =====
-- A verification library for calculated-tennis: tennis match simulation and backtests of bets
-- (tennis/), trading feeds (polymarket/) and the order-signing service (moneymanager/).
--
-- Base: the shared names, Boolean tests on natural numbers, lists, results, signed integers,
-- numerals, stable sorting, and float64 as a parameter. Draws is the monad of code that takes
-- numbers from a random generator and can fail.
--
-- Tennis models tennis/tennis.
--   State is player.go, format.go and state.go: a Go `[2]int` indexed by player is a `Tally`, and a
--     struct is a record with the source's fields. Counts grow by one from 0 and are natural
--     numbers; a format with negative fields is outside the model.
--   Rules is rules.go: `WinGame`, `WinTiebreakPoint` and the functions that they call. A method on
--     `*Match` returns the new match and its error. Its children prove: Cases (the branches),
--     Invariant, Preservation, Outcome (refusals) and Rotation (service).
--   Score is score.go: Parse (the score string), Validate (the sequence of sets) and Hydrate (the
--     replay of a score into a match). The replays are loops with no bound in the source; they take
--     fuel, and `none` says that it is used up.
--   Probability is probability.go and Simulation is simulate.go. The float64 arithmetic is the
--     parameter `Float64`; the random generator is the sequence of the numbers that it gives, with
--     a place in it as the state. The loop of one match takes fuel, a unit for each game or point.
--   Examples holds runs and the theorems at concrete inputs.
--
-- Polymarket models polymarket/core and the messages of polymarket/models.
--   Channels are Go's buffered channels with the `select` that drops; Subscribers is the map that
--     the feeds keep, with Entries on what each operation does to a key; Events are the messages.
--   MarketFeed is market_feed.go. A `World` is the feed with what it has done: frames written,
--     connections closed, events in channels, handlers started. Its child Loop is `connectLoop`,
--     `readLoop` and `runHeartbeat` as a state machine: a step is the code between two locks or
--     blocking calls, and `run` takes any interleaving of these steps with the calls of other
--     goroutines. Coverage, Keeps, Turns and Subscribed prove what the server is told; Delivery, what
--     channels receive; Shutdown, delays and the end; Race, an interleaving of two writers.
--   SportsFeed is sports_feed.go without its connection loop; Sessions is on a subscription's end.
--   Markets is the market of models/market.go with the filter of atp_trader.go; Discovery is
--     atp_market_discovery.go, with Once on overlapping starts, Starts on the markets that get a
--     trader and Retries on the API's attempts.
--   The results of dials, reads and writes are arguments; the JSON decoder is a parameter.
--
-- MoneyManager models moneymanager/pkg/risk and moneymanager/internal/server.
--   Decimals is the decimal arithmetic as a parameter; Risk is allocator.go and ev.go, with
--     Allocation on its limits; Server is server.go, with Requests on its replies. The signer, the
--     balance reader and the test for an address are parameters.
--
-- TennisAbstract models the code of tennis/tennisabstract that reads tables of matches and odds,
-- turns statistics into the rates of a match, and simulated wins into a side to back.
--   Dates is the use of Go's `time`; Surfaces, the settings by court surface (form_env.go,
--     alpha_env.go); Recent is recent_filter.go; Seasons and Form are form.go; Rates is
--     backtest_rates.go and backtest_form.go; Sides is backtest_bet.go. Examples has runs.
--   Names is name.go and player_key.go; Columns and Rows are the columns and rows of matches_csv.go
--     and matches_odds_csv.go, with Agree on their two parsers, and PlayerNames is the names in a
--     table; Odds is odds_join.go, with Index on its map, and Closest and Nearest on the row that is
--     chosen; Preload is backtest_preload.go, with Direct on its cache. A table is the list of the records
--     that encoding/csv reads, or of its failures.
--   The environment, `strconv.ParseFloat`, the time now, the classes and cases of characters, and the
--     results that the client of Tennis Abstract gives for a player are parameters. Results of one
--     instant, which `sort.Slice` may leave in any order, stay in that of the list.
--
-- Backtest models tennis/cmd/backtestbets.
--   Inputs is inputs.go: flags, and the answers of a terminal as the list of lines that it gives;
--     Accepted relates them to Config, the configuration and its check. Eligible selects and orders
--     the matches. Stats and Log are what a track counts and the rows that it logs (backtest.go,
--     results.go, bet_log.go); Stakes is the stake by the money manager, through the risk rules of
--     MoneyManager. Singles is the walk with single bets and Parlay the walk with parlays
--     (parlay.go): Legs, Window, Place and Track. Run is RunBacktests from the rows of the file on.
--   A pointer to the statistics that the balance reader of an allocator keeps is the track's
--     statistics at the time of the call. Accounting, Walk, Parlay.Sound, Parlay.Books, Run.Panics
--     and Run.Kept prove how the walks end and what the books are then.
--   Conversions between floats and decimals, and `strconv.FormatFloat`, are parameters. A float that
--     is not finite has no decimal: the panic of `decimal.NewFromFloat` there, and that of a division
--     by zero, end a walk as errors (`panicked`). Counters grow from 0 and are natural numbers.
--
-- Fuel. The replays of a score need fuel above twice the games at which a tiebreak begins, twice the
-- points of either tiebreak plus three, and the points of each token; with that they never run out in
-- a format in the usual proportions (sets to games at which the tiebreak begins, margins of two). A
-- simulated match needs a unit of fuel for each game or point that it plays; with one-sided draws
-- sets-to-win times games-per-set is enough. The walk with parlays takes a unit for each window, and
-- gets as many as there are matches, since a window passes at least one. A backtest hands the fuel
-- of a simulated match on, and its theorems ask that the simulations end.
--
-- Not modelled: input and output, logging, HTTP and WebSocket transport, generated protocol code,
-- messages of errors, the files that a backtest reads and writes, and the other packages.
pub mod Base
pub mod Polymarket
pub mod MoneyManager
pub mod Tennis
pub mod TennisAbstract
pub mod Backtest
