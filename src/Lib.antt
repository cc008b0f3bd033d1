-- ===== src/Lib.antt =====
-- A verification library for the points economy and the node statistics of the probe centre: a Go
-- server that keeps user balances with a ledger (points_core.go), sells goods for points
-- (shop_core.go, points_routes.go), rewards users for donated nodes (donate.go), and derives the
-- uptime of nodes (uptime.go), their maintenance (maintenance.go), the verdicts on samples
-- (sla_eval.go) and limits on requests (util.go). The nodes themselves are kept in pools
-- (nodepool.go), are connected to a WebSocket server (ws.go) that records their presence
-- (presence.go), are updated (ota.go), and are asked by users (forward.go) and by scheduled tasks
-- (task.go). Users are kept by administrators (users.go) or register themselves (register.go,
-- captcha.go).
--
-- How the parts interact: every change of a balance goes through applyPoints. Check-in, redemption,
-- orders, refunds, probe costs, grants and donation rewards are its clients; each runs in one
-- database transaction. The settlement of donated nodes reads the online seconds of the uptime part
-- and the credit for maintenance windows.
--
-- The server (Ws) records the presence of a node when it registers and when it leaves; the presence
-- writes the events that the uptime reads. The pools say which nodes there are and which channel
-- they use; forwarding and the scheduler pick nodes from them, leave out those that are offline, and
-- wait for answers in Waiters. A batch of probes is paid with points, and refunded when it fails. A
-- user who registers gets a bonus from the points.
--
-- The files:
--   Prelude       lists with native lengths and SQL-like queries on them, bytes and texts, the
--                 integers and int64 arithmetic (wrap64, neg64), Boolean tests
--   Calendar      days and their texts, as todayStr writes them
--   Store         the database as a record of tables, errors, results and db.Transaction; the rows
--   Points        applyPoints, changePoints and the queries. Below it: Checkin (doCheckin), Probe
--                 (chargeProbeCost, refundProbeCost, grantSignupBonus) and Api (pointsChange,
--                 resolveUser, the adjustment), with the invariant of the books in Invariant
--   Shop          Catalog (productInput.apply, importCards, cardStock), Redeem (redeemCode),
--                 Orders (placeOrder) and Finish (finishOrder, dispatchWebhookOrder, the delivery
--                 callback)
--   Uptime        loadUptimeEvents, uptimeForNode, buildUptimeStats, dayBuckets, fillUptimeDaily
--   Maintenance   covers, maintenanceHit and the clean-up
--   Donate        normalize, approveDonation, setDonationOffPool; Applications: the handlers, with
--                 their limit in Capped; Settle: settleDonationDay and maintenanceCredit
--   NodePool      parsePools and the stacks, reloadNodePools, the look-ups; Names, Reload and Joined
--                 hold their laws, Admin the handlers on node definitions
--   Presence      recordNodeOnline, recordNodeOffline, touchNodes, checkHTTPNodes
--   Waiters       the callers that wait for an answer
--   Ws            the hub of peers, the messages of a session, eviction, RequestProbe and
--                 RequestCommand; Sync and Races are about the order of their steps
--   Forward       middlewareHandler and nodeTarget; Batch: batchProbeCore and batchProbeHandler
--   Schedule      validateTask, the quiet hours, the nodes of a round, schedulerLoop; Alerts:
--                 noteRoundOutcome. Starts, Spacing and Due are about the starts of rounds
--   Captcha       newImageCaptcha and verifyImageCaptcha
--   Ota           the update tasks of nodes; Dispatch: the handler that sends an update, in the two
--                 parts before and after the node's answer. Changes says what a step does to the
--                 rows; Final, Single and Settles use it
--   Users         the administration of users; Powers, Ruled and Requests are about its last
--                 administrator
--   Register      the codes sent to an address and the registration; Guesses is about their tries
--   Sla           evalSample and what it calls; Rounds: the curve of rowsToRoundSeries
--   Limits        clampLimit and the rate limiter of util.go
--
-- How the code is modelled: a table is a list of rows, newest first, and a database is a record of
-- tables with one sequence for primary keys, of which the code needs only that a new key is fresh.
-- Transactions run one after the other, as with the single writer of SQLite; one that returns an
-- error leaves the database as it was. A database call fails only where a constraint or a missing
-- row makes it fail. SQL integers are exact, and Go's int64 arithmetic wraps: `wrap64` is written
-- wherever the code computes an amount. Texts are lists of bytes; TrimSpace, ToUpper and ToLower
-- treat ASCII only. Instants are nanoseconds since 1970, in a time zone with a fixed offset east of
-- Greenwich. Columns that only serve the display (remarks, the name beside the id of a user, times
-- of change) are left out, as are the texts of notices, logs and floating-point quotients. Where a
-- handler checks, waits for a node or a mail, and then writes, the check and the write are
-- definitions of their own, so that other steps can come in between.
--
-- Fuel: the loop over local days has one step for each day up to the end, the sampling of a day one
-- step for each five minutes, the loop over the points of a curve one for each round; each is at
-- least the number of iterations of the code. Decimal numerals take the number itself as fuel.
--
-- Not modelled: sockets and HTTP requests, speed tests, the agents, sessions, configuration, reports,
-- and the HTTP handlers that only list or pass data on. They are I/O, glue, or planned for a later
-- extension.
pub mod Prelude
pub mod Calendar
pub mod Store
pub mod Points
pub mod Shop
pub mod Uptime
pub mod Maintenance
pub mod NodePool
pub mod Presence
pub mod Waiters
pub mod Ws
pub mod Donate
pub mod Sla
pub mod Limits
pub mod Forward
pub mod Schedule
pub mod Captcha
pub mod Ota
pub mod Users
pub mod Register
