-- ===== src/Lib.antt =====
-- Magistrate: a gateway through which a user talks to the Magi and through which objectives are
-- handed to Firstmate, which executes them. The gateway (gateway/app) keeps its state in one
-- SQLite database. This library models the parts of the gateway that decide about money,
-- authority and idempotency.
--
-- How the parts interact: every HTTP request passes the request boundary, which bounds bytes and
-- concurrency. A request starts an objective, for which the credit ledger
-- (gateway/app/billing.py) holds an estimate, settles the measured cost, and refunds or releases.
-- The webhooks of the payment provider (also gateway/app/billing.py) write to the same accounts
-- and the same ledger. A chat turn is answered by a model that the router
-- (gateway/app/magi_routing.py) chooses, with a ledger of its own for the cost of routes. A
-- connected account starts with a single-use transaction (gateway/app/oauth_transactions.py). An
-- objective is cancelled through a durable request (gateway/app/objective_cancellation.py), and
-- the profile of its execution is chosen by gateway/app/execution_routing.py. What Firstmate does
-- with an objective comes back as immutable events (gateway/app/firstmate_execution.py), each of
-- which writes, in one transaction, the ledger of events, the objective, the requests to cancel
-- it and its state. That is a state with a revision (gateway/app/contracts.py,
-- gateway/app/deployment_mode.py, gateway/app/structured_runtime.py). In a deployment for one
-- person no credits are bought; a policy and a ledger of holds (gateway/app/deployment_mode.py,
-- gateway/app/firstmate_execution.py) bound what the objectives spend.
--
-- Every transaction that begins with BEGIN IMMEDIATE is a function from the rows it reads to a
-- result or an error with the rows afterwards; an error is a rollback and carries no rows.
-- Concurrent requests are the sequences in which the database serves these functions. While
-- complete_routed waits for a provider, what other tasks write to the routes is a parameter; the
-- delivery of a request to cancel is a parameter as well. Where the events of a stored thing are
-- followed through time, sequences of operations have steps in which other components write their
-- own tables.
--
-- The files:
-- * Prelude passes on library names, and has Boolean tests, integers with their laws for omega
--   (Prelude/Int), ORDER BY and LIMIT (Prelude/Order), texts by their characters (Prelude/Chars),
--   results with errors (Prelude/Outcome) and tables with a primary key (Prelude/Tables).
-- * Billing is the credit ledger: Billing/Catalog the checked catalog, Billing/Db the rows and
--   _insert_ledger, Billing/Account `_account`, Billing/Reserve `reserve_objective` and
--   `release_objective`, Billing/Settle `measured_cost` and `settle_objective`, Billing/Credit
--   `refund_objective` and `add_credits`. Proofs: Billing/Invariant and Billing/Preserve (valid
--   databases, along sequences of operations in Billing/Preserve/Run), Billing/Limits,
--   Billing/Replay, Billing/Cost, Billing/Refunds, Billing/Grants.
-- * Stripe is StripeWebhookProcessor: Stripe/Json the payload, Stripe/Verify `verify` and the
--   envelope, Stripe/Rows the tables and the prices, Stripe/Subscription `_subscription`,
--   Stripe/Invoice `_invoice`, Stripe/Process `process`. Proofs: Stripe/Replay, Stripe/Period,
--   Stripe/Stale.
-- * OAuth is the store of transactions: OAuth/Redirect the allowlist and the lifetime,
--   OAuth/Store `create` and `consume`. Proofs: OAuth/Lifecycle, OAuth/RoundTrip.
-- * Routing is the model router: Routing/Model candidates, costs and the class of a turn,
--   Routing/Store `ModelRouteStore`, Routing/Select `_eligible`, Routing/Failover
--   `complete_routed` and `complete`. Proofs: Routing/Ledger, Routing/Order, Routing/Attempts,
--   Routing/Effects and Routing/Budget (what all attempts keep), Routing/Bound,
--   Routing/Authority.
-- * Cancellation is ObjectiveCancellationService: Cancellation/Model the rows,
--   Cancellation/Notify `_notify`, Cancellation/Request `request`, Cancellation/Recover
--   `recover_pending`. Proofs: Cancellation/Replay, Cancellation/Unique.
-- * Objective is the durable state of an objective: Objective/State the contract and the
--   projection, Objective/Advance `advance_objective_state`, Objective/Persist
--   `persist_objective_state` of gateway/app/structured_runtime.py. Proofs: Objective/Life and
--   Objective/Refine (its life cycle), Objective/Total, Objective/Right and Objective/Stored
--   (persisting succeeds, and what it stores).
-- * Personal is a deployment for one person: Personal/Policy `DeploymentMode`, Personal/Rows the
--   tables, Personal/Ledger and Personal/Settle `PersonalResourceLedger`. Proofs:
--   Personal/Budget, Personal/Run and Personal/Within (limits), Personal/Errors, Personal/Replay.
-- * Execution is FirstmateExecutionStore: Execution/Rows events and tables, Execution/Ingest
--   `ingest` and `inspect`, Execution/Generation the claims of completion messages. Proofs:
--   Execution/Keys, Execution/Added (what a taken event writes), Execution/Steps (sequences of
--   operations, with the deletion of accounts), Execution/Life and Execution/Report (the life
--   cycle of a report), Execution/Again, Execution/Ended.
-- * Boundary is RequestBoundary (gateway/app/request_boundary.py): Boundary/Request the limits
--   and headers, Boundary/Serve the interleaved requests. Proofs: Boundary/Sound,
--   Boundary/Headers.
-- * Harness is the choice of an execution profile: Harness/Select the strategy, with its proof in
--   Harness/Best.
-- * A module Tests of each part has concrete runs.
--
-- Bounds: numbers of Python are unbounded, so are those of the model; a column that SQLite bounds
-- to 64 bits is unbounded here. Decimals are counts of a unit that is fine enough for those in
-- use. No function runs on fuel: every loop is over a list or over the number of retries.
--
-- Taken as parameters: hashes and message digests, the clock, random ids, the parsing of JSON, of
-- integers and of URLs, regular expressions of the turn classification, the rounding of float
-- quotients, what a model provider answers and what is written meanwhile, whether Firstmate's
-- inbox takes a note, the month of a time, SQLite's lower, the Unicode categories of characters,
-- the canonical text of an event, the projection of an event to the activity feed, and which
-- users have a profile.
--
-- Not modelled: the HTTP application, the clients of providers and of GitHub, the migrations, the
-- checkout and portal calls, the older webhook contract (accept_webhook), the decisions of
-- Firstmate, the generation of completion messages, hosted execution, the command line, the
-- mobile and web clients and the deployment scripts. They are input and output, or are left for
-- an extension.
pub mod Billing
pub mod Boundary
pub mod Cancellation
pub mod Execution
pub mod Harness
pub mod OAuth
pub mod Objective
pub mod Personal
pub mod Prelude
pub mod Routing
pub mod Stripe
