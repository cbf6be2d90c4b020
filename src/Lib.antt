-- ===== src/Lib.antt =====
-- A verification library for the Sigenergy optimizer, a Home Assistant add-on that commands a home
-- battery. The program's control loop (app/optimizer.py) reads the house and the market, decides on
-- limits and modes, and applies them through Home Assistant. Around it stand small components with
-- contracts of their own, on which its safety and its accounting rest. This library models those.
--
-- * SolarReentry.antt and below: app/solar_reentry.py. `Guard` is the dataclass `SolarReentryGuard`,
--   `reset`, `arm`, `start`, `evaluate`, `current` and `commit` its methods; a method takes the guard
--   and returns it. `evaluate` is cut into `with_clock`, `observe`, `adopt`, `judge`, `continue`,
--   `progress`, `advance`, `conclude` and `mature`, in the order of the Python method. An
--   `AssertionError` is the result `none`.
-- * ImportTopup.antt and below: the loss-aware capture of import cost. Event.antt is the payload of
--   an interval, Store.antt the import tables of app/state_store.py, DaySummary.antt the day's
--   summary there, Ledger.antt, Measure.antt, Capture.antt and Reconcile.antt the class
--   `ImportTopupLedger` of app/import_topup_ledger.py, and Worker.antt `_ledger_snapshot` of
--   app/storage_worker.py. A `World` holds the ledger, the store that it writes to and the faults that
--   the database will raise: each database call takes the next fault of the list, which is `fine`, a
--   failure before the commit (rolled back), or a failure after a commit that took effect.
-- * StorageWorker.antt and below: admission and life cycle of the database thread of
--   app/storage_worker.py. The interleavings of submitters, the thread and `close` are the histories
--   of `Reach`.
-- * EveningBoost.antt and below: the admission of the evening export boost in app/optimizer.py.
--   Evidence.antt is `_evening_boost_reentry_evidence`, EveningBoost.antt
--   `_reset_evening_boost_reentry` and `_evening_boost_reentry_allowed`, Application.antt the dispatch
--   check and `_finish_evening_boost_reentry_application`. What the methods read of the house's state
--   and the configuration is the record `Inputs`, and the context tuple a value of any type. What
--   `_evening_boost_reentry_context` and `_msc_transition_observed` return is an argument: the model
--   has the calls in which the two return, and not their exceptions.
-- * Desired.antt and below: the limits and the mode of a decision in app/optimizer.py. State.antt has
--   what the methods read, Caps.antt the hardware's caps and the battery's limits, Tier.antt the export
--   limit of a feed-in price and the forecast guards, Policy.antt and Export.antt
--   `_desired_export_limit`, Desired.antt the import limit, the base limit, the mode and the PV limit.
-- * MscSettlement.antt and below: app/msc_settlement_evidence.py. Values.antt has its allow lists and
--   the functions that let a value through them, Objects.antt `_safe_object` and the reason flags,
--   MscSettlement.antt the class `MscSettlementEvidence`; Calls.antt runs sequences of calls. What
--   `datetime.fromisoformat` and `float` make of a text is the parameter `Parsers`.
-- * Forecast.antt and below: app/forecast_utils.py. Candidates.antt has the candidate lists, Points.antt
--   the readers of an entry, Forecast.antt the search, which is cut into one function for each loop.
-- * Earnings.antt and below: app/earnings.py. Series.antt reads a history, Day.antt has the summaries of
--   a day by each kind of source and the tests that accept one, Sources.antt the sources, Earnings.antt
--   `daily_summary` of `EarningsService` and what it calls. Home Assistant and the store are the
--   parameter `Answers`, the parsers of texts `Readers`, the days of the house's time zone `Calendar`.
-- * SolarBudget.antt and below: `_solar_surplus_timing_budget` and `_piecewise_refill_timing_budget`
--   of app/optimizer.py. The loops are `opportunity` and `opportunities`; the quotient by the safety
--   factor is multiplied out in the test, and is not kept in the results.
--
-- The parts meet where the program's parts do: the ledger's queue is flushed into the tables of
-- Store.antt directly or, deferred, through the worker's `write_all` and the ledger's `retire`, and the
-- ledger's `summary` wraps the summary of DaySummary.antt.
--
-- Numbers. A Python number is a `Number`: a finite value counted in millionths, or one of the values
-- that a finiteness check refuses. Sums and differences are exact; a quotient rounds down, in the
-- limits of a decision towards zero, and the rounding of floats is not modelled. Of the checks on the
-- results of float arithmetic, that of an interval's energy is the parameter `representable`; those of
-- the timing budgets cannot fail for exact numbers and are left out. Where the limits of a decision or
-- the earnings read a number, it is finite. A civil day is its number, an entity id a number, except
-- where a component compares it as a text; a context tuple is a value of any type with an equality
-- test. Clocks, readings, faults and calls are arguments. All loops run over lists, so there is no fuel.
--
-- Not modelled: the decision function and the application of a decision in app/optimizer.py, the HTTP
-- and websocket clients, the routers, the trace archive, the earnings of several days at once and the
-- web page.
-- SQL and JSON text are not modelled either: a table is a list of rows, a payload the record that it
-- spells, and a transaction takes effect as a whole or not at all.
mod Prelude
pub mod SolarReentry
pub mod ImportTopup
pub mod StorageWorker
pub mod EveningBoost
pub mod SolarBudget
pub mod MscSettlement
pub mod Forecast
pub mod Earnings
pub mod Desired
