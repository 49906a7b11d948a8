-- ===== src/Lib.antt =====
-- Slippy, the routing slips of a delivery pipeline: the Go package slippy with its store over
-- Postgres and its in-memory store slippy/slippytest; and the rendering of fields in the package
-- logger, which the services that use it log with; and what the package argocdclient computes from
-- the state of an Argo Rollout.
--
-- A slip is the record of one commit on its way through a pipeline: a status, a status for each
-- configured step, rows of component statuses for the steps that aggregate them, a history, and a
-- claim. A push creates the slip of a commit, resets it, or replaces it; workflows report steps on it,
-- wait for the prerequisites of a step, and complete or fail the slip; a service may claim it before
-- it starts work on it.
--
-- Parts and files.
--   Base, Base/*            tests on native numbers, lists, texts, association lists, results.
--   Slippy/Status/*         slippy/status.go: the constants and their tests, by constructors.
--   Slippy/Errors           slippy/errors.go: sentinels, wrapping, errors.Is, the texts.
--   Slippy/Types            slippy/types.go: Slip, Step, ComponentStepData, StateHistoryEntry.
--   Slippy/Aggregate/*      slippy/aggregate_status.go: computeAggregateStatus.
--   Slippy/Claim/*          slippy/claim.go: RunInFlight, DecideClaim, DecideRelease, DecideReset, the
--                           markers and the guard of their names.
--   Slippy/Store/*          slippy/slippytest/mock_store.go: MockStore. A method is a function from its
--                           arguments and the store to the store and its error or result (State, Rows,
--                           Writes, Claims, Reads); Calls makes one step of each; the others hold the
--                           proofs.
--   Slippy/Postgres/*       slippy/postgres_store.go, postgres_store_updates.go,
--                           postgres_store_reads.go, postgres_store_rollbacks.go, rollback.go:
--                           PostgresStore. State holds the tables as values
--                           and transactions over them; Gate the switches of the freshness gate;
--                           Columns goes between a slip and its row; Events has the upsert with its
--                           gate and the rollup; Steps, Tags, Writes and Repave the methods that
--                           write; Reads and Schema the reads and the probe; Rollbacks the
--                           records of rollbacks. Progress has the rules by which the proofs follow a
--                           transaction, and the others hold the proofs: Freshness and Retry (the
--                           gate), Repaving, Selection, Quiescence and Refinement (claims), RoundTrip.
--   Slippy/Pipeline/*       slippy/pipeline_config.go, slippy/columns.go: the configuration, its
--                           validation and lookups.
--   Slippy/Client/*         slippy/interfaces.go (Interface), client.go and config.go (Base), steps.go
--                           (Steps, Completion), executor.go (Steps, Completion, Execution), prereqs.go,
--                           history.go, hold.go (Hold, Waiting), resolve.go. The client is a section over
--                           a store: SlipStore is the record of operations, IsSlipStore the two laws that
--                           the proofs use, and InMemory the instance.
--   Slippy/Push/*           slippy/push.go: Options, Fresh (the new slip), Backstop and Persist (its place
--                           in the store), Search and Ancestors, Create (CreateSlipForPush).
--   Logger/*                logger/sanitize.go: sanitizeField and renderField.
--   Argo/*                  argocdclient/rollout.go (Rollout: newRolloutStatus and what it calls) and
--                           canary_evidence.go (Canary: MovedPastTrafficStep; Canary/Evidence states
--                           what its answer means, Canary/Entries and Canary/Sound have the proof).
--                           Integer is int32, with the wrap-around of a conversion.
--   Tests/*                 runs of the theorems on concrete data.
--
-- Conventions. A Go map is an association list with one entry for a key; a loop over a map runs in
-- the order of the list. A time is a number, 0 for the zero time, and the clock is an argument. A
-- pointer that may be nil is an option. A Go string with named constants is a data type, whose
-- constructor unset is the empty string; other texts of such a type are not modelled, save in
-- DispatchIntent. A pair of a value and an error is a Result, or an optional error beside the state.
-- Logs, traces, contexts (except where a wait sees one cancelled) and locks are left out: a method of
-- the store is one step, as its mutex makes it.
--
-- Fuel. The depth-first search of the configuration runs on one more unit of fuel than there are
-- steps, since a path holds no step twice; running out of it is an error of the validation in the
-- model that no configuration meets. The wait for prerequisites runs over a list of polls that stands
-- for the world: whether the context is cancelled, what others did to the store, and the clock.
--
-- Postgres. A transaction is a function from the tables to an error, or to a value and the tables
-- after it; inTx keeps the tables if it ends in an error. The driver is a parameter: the error of each
-- statement, if it fails, and the two clocks, so that a theorem over all drivers holds for every
-- pattern of failures by kind of statement. A commit that returns an error may
-- have kept everything or nothing, which is a part of the driver too; a statement outside a
-- transaction that returns an error has kept nothing. The unique index of
-- a commit is part of the tables, since a migration adds it; a foreign key or a domain check that is
-- broken is an error of the driver. Columns of JSON hold the values that the code marshals, and the
-- names of steps are distinct columns. Concurrent transactions are taken one after the other, as the
-- lock of the slip orders them. A time is a number of nanoseconds.
--
-- Not modelled: the migrators and their DDL, malformed JSON in a column, and
-- the other packages of the repository, which are clients of services and glue; nor the HTTP calls
-- of argocdclient. GitHub is a record of
-- two functions; the JSON decoder, the hash and the printing of a duration are arguments.
pub mod Argo
pub mod Base
pub mod Logger
pub mod Slippy
pub mod Tests
