-- ===== src/Lib.antt =====
-- pstonn keeps residents' visitor parking permits carrying the right number plate: a schedule
-- says which car a permit should carry at each instant, a scheduler writes it to the council's
-- portal through a connector, and several gates keep that traffic within what the portal
-- bears. This library models the schedule, the scheduler, the gates, and the sessions of the
-- people who keep it.
--
-- Parts, files and sources (paths from the repository's root):
--
-- - Prelude and its tree: shared names, Boolean tests, lists, arithmetic, texts as lists of
--   runes, and Go maps as association lists, with text keys (Prelude/Maps) or with any key
--   that has an equality test (Prelude/Keyed).
-- - Clock: package time as the program uses it. An instant is a number of nanoseconds since
--   the zero Time, so 0 is IsZero (in Session, since the Unix epoch); a civil day is a number
--   of days since 0000-01-01. Clock/Civil is the civil calendar, Clock/DateText the layout
--   "2006-01-02", and Clock/Regular says what is relied on in a time zone's data.
-- - Model: internal/model/model.go. Model/Cycle is the rotation over several weeks (Cycle,
--   WeekAt, ReanchoredCycle, NextCycleWeeks, PrevCycleWeeks), Model/Plate is NormPlate and
--   SamePlate, Model/Schedule is Resolve and SameTarget, and Model/Schedule/NextChange is
--   NextChange. Model/Displaced is FindDisplaced and FindDisplacedVehicle, and Model/Expiry is
--   Inactive, ExpiryDeadline and EndOfDay. Model/Best is the loop that keeps a pointer to the
--   best element so far.
-- - Provider: internal/provider/provider.go, the classification of errors (Classify,
--   FailureOf). An error is the list of the links that errors.Is and errors.As walk.
-- - Parking: internal/parking. Parking/Breaker is breaker.go (allow, onPushback, onSuccess,
--   snapshot, restore, state), Parking/Governor is governor.go (tryTake, loginBudget), and
--   Parking/Health is health.go (noteAt, pruneLocked, state, WorseConnectorState), which reads
--   Provider's signals. Parking/Client is owner.go and, of parking.go, classify and
--   withSession's gates: it composes the cooldown of an owner, the breaker and the health.
-- - Notify: internal/notify. Notify/Throttle is throttle.go (sendLimiter).
-- - Orikan: internal/provider/orikan. Orikan/AuthCircuit is authcircuit.go (allow,
--   onUpstreamFailure, onSuccess, onInconclusive, state).
-- - Session: internal/session/session.go (Issue, Decode, RevokeTo), with User and IsAdmin of
--   internal/identity/identity.go. Session/Wire says what is relied on in JSON and base64.
-- - Identity: internal/identity/identity.go, the middleware that says whom a request comes
--   from (Middleware, fromTrustedProxy, proxyPresentsSecret, splitGroups).
-- - Scheduler: internal/scheduler, over one record of what the scheduler keeps in memory.
--   Scheduler/Churn, Reconnect and Recover are reconnect.go: the count of expiries, the queue
--   of sessions to sign in again, and the worker (recoverOrRetire, drainOneReconnect) with
--   DeleteTenantSessionIfGen of internal/store. Scheduler/Warm and KeepWarm are warm.go (the
--   thresholds and the backoff; warmOne), Scheduler/Drift is drift.go's pacing and
--   Scheduler/Hold its holdExternalChange, with CreatePlateOverride of
--   internal/store/schedule.go, Scheduler/Retry the backoff, parking, kicking and claims of
--   scheduler.go. Scheduler/Rollover, Apply and Reconcile are reconcile.go: the spreading of
--   changes, what follows the council's answer to a write, and reconcilePermit, which composes
--   Model's Resolve with all of these. Scheduler/Episode is notifyFailure of notify.go with
--   the row of permit_notify. Scheduler/Alerts is systemAlertEvery, detectSystemic and the
--   claims and holds of notices (claimNotify, holdNotify).
--
-- State and steps: a struct is a record, a method a function from the state before the call to
-- the state after it and its results. Methods hold the struct's mutex, so each is one step,
-- and an interleaving of callers is a list of calls. A nil receiver is `none`. The time at
-- which a method reads its clock is an argument.
--
-- Parameters: a time zone is a Location, of which Clock/Regular's laws are assumed where the
-- theorems say so; a fixed zone keeps them. The MAC, base64, JSON and case tables behind the
-- session cookie are a Codec, with Session/Wire's laws (a faithful codec). The case tables of
-- package unicode are a Unicode, with Model/Plate's laws of upper case. What package net says
-- of a peer is Identity's Outside. The FNV sums behind the jitter are hash functions, of which
-- nothing is assumed; a random number is an argument. What the scheduler reads of the store,
-- the council's client and the provider in one pass is a record of answers (Attempt,
-- WarmWorld, World), and what other goroutines do between two steps of the reconnect worker is
-- a function on its state.
--
-- Numbers: identifiers and counts are natural numbers. The generation of the breaker wraps at
-- 2 ^ 64, and time differences saturate at 2 ^ 63 - 1 nanoseconds. Duration.Hours, the token
-- bucket's float64 and the jitter's are exact arithmetic here, rounded down at the end; the
-- jitter's fraction is in thousandths. Dates are of years of four digits.
--
-- Loops and fuel: later_midnights has as many rounds as there are civil days up to the end of
-- the horizon, and every later midnight lies beyond it; civil_of_day counts the years with the
-- day's number as fuel, and no year is shorter than a day.
--
-- Not modelled: of withSession, the sealing and saving of the session; the waiting loops and
-- channels of the governor, getters of counters, and in model.go the wording of times
-- (EndText). Of the scheduler, the loops over the fleet and over time, log lines, the wording
-- of notices, and drift's reading of the council are left out; a delivery is one step with its
-- outcome. The database, the web pages, mail, the HTTP of the connectors and the configuration
-- are outside the library.
pub mod Prelude
pub mod Clock
pub mod Model
pub mod Provider
pub mod Parking
pub mod Orikan
pub mod Notify
pub mod Session
pub mod Identity
pub mod Scheduler
