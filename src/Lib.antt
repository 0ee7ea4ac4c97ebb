-- ===== src/Lib.antt =====
-- The Locoomo logistics API: parcels move between pickup stations (Nodes). A consumer pays for an
-- order, drops the parcel off at the origin Node, a courier carries it to the destination Node, and
-- the receiver collects it there with a code; a failed delivery comes back to its sender.
--
-- Orders (src/modules/orders) owns the order rows, their status graph, shelf places and the event
-- log. `Orders` is orders.service.ts method by method, `Orders/Status` the graph and its test,
-- `Orders/Code` tracking-code.ts with its round trip below it; the other children hold the proofs,
-- `Orders/Run`, `Orders/Kept` and `Orders/Taken` those about calls in any order.
--
-- Earnings (src/modules/earnings) splits the price of a completed order: `Earnings` has the rules,
-- the split (split-calculator.ts) and the three services, `Earnings/Split`, `/Record`, `/Payable` and
-- `/Payout` their proofs. JavaScript's division is exact there: the products stay far below 2 ^ 53.
--
-- Logistics (src/modules/logistics/domain): `Logistics/Leg` is delivery-leg.ts, `Logistics/Routing`
-- routing.ts, `Logistics/Serves` its proof, and `Logistics/Vehicle` vehicle-selection.ts. The breadth-first search of eventsToReach
-- has fuel for one round for each of the seven statuses.
--
-- Outbox (src/modules/notifications): `Outbox` is the queue of side effects, the registry of
-- handlers and the poller; `Outbox/Loop`, `/Poll`, `/Reach` and `/Backoff` are the proofs. A poll
-- is one step; handlers are arguments.
--
-- Capacity (src/modules/nodes, src/modules/riders): `Capacity` has the counters of Nodes and riders,
-- `Capacity/Places` and `/Riders` their proofs.
--
-- Handoffs (src/modules/handoffs): `Handoffs/Codes` is the issuer and the validator of the codes by
-- which handovers are confirmed. A wrong code throws, which rolls the caller's transaction back, but
-- the count of failures is written on another connection: `settle` is how such a transaction ends.
-- `Handoffs/Counter` is counter-view.ts, what the staff of a Node are shown. `Handoffs/Confirm` has
-- the seven services that confirm a step or take an order, over the whole database.
--
-- Tracking (src/modules/tracking): `Tracking` is domain/public-status.ts, what the public page says of
-- an order, and the test of application/public-tracking.service.ts for a page that has expired.
-- `Tracking/Agrees` sets them against the orders.
--
-- Payments (src/modules/payments): `Payments` has the rows and what Paystack says, `Payments/Intents`
-- checkout, webhook, confirmation and the sweep of stale intents, which also write orders, Nodes and
-- the outbox; `Payments/Pricing` is the price of a delivery, its float arithmetic a parameter.
-- `Payments/Steps` is what these services may do as a relation, `/Refines`, `/Booking` and `/Run` show
-- that they do no more, and `/Settled` and `/Slots` prove the invariants on the relation. `/Again` is
-- about repeated events, `/Quote` about prices.
--
-- `Database` puts the tables together for services that write several of them in one transaction,
-- with the idempotency keys (src/common/idempotency). A statement that fails leaves its transaction
-- aborted even where the exception is caught; `close` is how a transaction ends.
--
-- Delivery (src/modules/logistics/application, and delivery-progress.listener.ts of handoffs):
-- `Delivery` has the rows of delivery_legs, `Delivery/Dispatch` the dispatch service and the router,
-- `Delivery/Events` the events service, and `Delivery/Listener` what moves the order with its leg.
-- `Delivery/Steps` is what these may do to the table of legs as a relation; `/Quiet`, `/Moves`,
-- `/Applying` and `/Run` show that they do no more, and `/Active` draws the conclusions. `/Agrees`,
-- `/Alone` and `/Together` set the order against its leg, with `Orders/Along` on the side of the orders.
--
-- Identity (src/modules/identity): `Identity` has the tables of users and tokens, `Identity/Sessions`
-- login, refresh, logout and the password reset, `Identity/SignUp` and `/Google` the ways to an
-- account and `Identity/Password` the stored form of a password. `Identity/Live` is what calls may do
-- to the refresh tokens and to the links of password resets as a relation, which `/Sequence`, `/Run`,
-- `/Entries` and `/Calls` show they keep to, and `/Spent` what the relation keeps; `/Rotation`,
-- `/Lockout` and `/Reset` are about refreshing, guessing and resetting. A call is run to its end
-- before the next, but in `/Race`, where the reads of two refreshes come before the writes of both.
--
-- Not modelled: courier webhooks and the reconciler, the profiles of riders and Nodes, and
-- all that only wraps a framework, a query or a third party. Emails are arguments of the services.
--
-- A service method is an `Action`: state in, result or exception and state out (`Effect`); a
-- transaction that throws leaves the state as it was. A database table is the list of its rows,
-- `UPDATE ... WHERE ... RETURNING` is `update_where` with the rows it selected, and rows are locked
-- by running a transaction as one step. Uuids, keys and times are numbers; texts are lists of code
-- units. The platform's Unicode tables and URI decoding are parameters.
pub mod Base
pub mod Effect
pub mod Orders
pub mod Earnings
pub mod Logistics
pub mod Outbox
pub mod Capacity
pub mod Handoffs
pub mod Tracking
pub mod Payments
pub mod Database
pub mod Delivery
pub mod Identity
