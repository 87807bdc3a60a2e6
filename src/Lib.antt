-- ===== src/Lib.antt =====
-- Verification of PONGIT Arcade, a 1v1 arcade game whose clients and services, in TypeScript, run
-- the same integer physics as its contracts.
--
-- The parts and their files:
-- - Physics.Court, V2: the event physics of shared/physics-v2.ts. `State` has the fields of the
--   source in snake_case; `next`, `move`, `collide`, `advance`, `handicap` and `resume` are its
--   functions. The loop of `advance` is `for_loop` of Common.Loops, with `round` for its body and
--   `settle` for the return after it. V2.Flight is about the next event, V2.Validity about the
--   invariant, V2.Advance about the loop, V2.Batches about its limit, V2.Rallies about starts.
-- - Physics.V1: shared/physics.ts, the first deployment, and its embedding into V2.
-- - Physics.Interlude, RoomsChaos, Realtime: shared/physics-interlude.ts,
--   shared/physics-rooms-chaos.ts and shared/physics-realtime-chaos.ts, the engines of the rooms,
--   which call the V2 physics event by event and change the speeds in between.
-- - Authority.Observation, Recovery: decideRecovery of shared/authority-recovery.ts, which says when a
--   room leaves the hosted engine; Recovery.Justified goes through its branches, Recovery.Boundary has
--   its properties.
-- - Chaos.Catalogue, Effects, Rally, Modifiers: shared/chaos-events.ts, shared/chaos-effects.ts,
--   shared/chaos-rally.ts and shared/chaos-modifiers.ts, the events of Chaos games.
-- - Rooms.Availability, RoundStatus, Clock, TickPilot: shared/rooms-availability.ts,
--   shared/rooms-round-status.ts, shared/lobby-clock.ts and the class TickPilot of
--   shared/engine-feed.ts. Rooms.Members: nextPair and rotateMembers of shared/rooms.ts.
-- - Rooms.Lifecycle: relayer/src/rooms-lifecycle.ts, how the operator renews the shared engine.
--   Lifecycle has the state, the answers of one cycle's reads and code that throws and keeps what it
--   has written; Start is `roomsLifecycle` up to
--   its first cycle, Submit is `submit` and `transition`, Cycle is `cycle`. Runs, Reasons, Sending,
--   Closing, Justified and Safety go through a cycle with the reasons of what it does; Steady,
--   Induction and Journal are about the journal of transactions.
-- - Rooms.Lobby: the lobby of relayer/src/interlude-rooms.ts. Table has the functions on rooms, Routes
--   and Seat the requests, Tending and Offers the lobby's part of `maintenance`, Transact the
--   function `transact`, with relayer/src/rooms-presence.ts; Acceptance is
--   shared/rooms-acceptance.ts. Places, Moves, Safety, Seated, Matching, Tended and Passes are about who is
--   where, Readiness and Prepared about launches, Countdown about expiries, Budget about the offers of a
--   pass, Once about the table of places, Repeats about transactions that are repeated.
-- - Relayer.LogRanges, PublicationHealth: relayer/src/log-ranges.ts and
--   relayer/src/rooms-publication-health.ts, whose `observe` is two steps, before and after its wait.
--   Relayer.AuthorityExecutor: authorityExecutor of relayer/src/authority-keeper.ts, which sends the
--   actions of a recovery decision; Relayer.MaintenanceCall is maintenanceCall of the same file, with the
--   numbers of its text in Relayer.Decimal and its identifiers in Identity; Relayer.Scheduler is
--   relayer/src/rpc-scheduler.ts.
-- - Scenarios: runs of all of these at concrete inputs.
--
-- A `bigint` of either sign is an integer of Common.Int, whose division truncates as the source's
-- does; times, scores and stakes, which are never negative, are natural numbers. Code that throws
-- returns a `Result`, with a `Fault` for each message. The limit of a loop is an argument, as in the
-- source, so no fuel is added: what holds, holds for every limit. The loop of LogRanges has the
-- number of blocks for its fuel, which is enough because each round takes at least one block; a number
-- has itself and one more for the fuel of its digits, each of which divides it by ten.
--
-- What a cycle, a request or a pass reads from the chain, the engine, the clock and the tables of other
-- services is an argument (`Answers`, `Context`, `Pass`); a call that throws answers `none`. A cycle and
-- a transaction are one step each, as the code's flag and the database's lock make them. An object that
-- the code changes in place is put back under its key. The loops of the lobby go over finite lists.
--
-- viem's isAddress, encodeFunctionData, signing, hashing and decodeEventLog, JSON.stringify and the keccak hash of "MATCH_SESSION_CLOSED" are
-- parameters. Checks of JavaScript's types at run time have no counterpart where the model's
-- types rule the case out. Not modelled: the contracts, the web client, the other services of
-- relayer/src and the indexer, the ABI data and the codecs.
pub mod Common
pub mod Physics
pub mod Relayer
pub mod Rooms
pub mod Scenarios
pub mod Authority
pub mod Chaos
