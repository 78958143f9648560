-- ===== src/Lib.antt =====
-- A model of llmxy, a gateway that sells access to language models: it bills each request to the
-- user's prepaid subscriptions and wallet, holds API keys to quotas, and routes a request to one of
-- several upstream models. The modelled code is the Python service under api/app.
--
-- The program's parts and their files:
--   * Models, Models/Enums: the rows of api/app/models/__init__.py (users, API keys, plans,
--     subscriptions, orders, balance transactions, channels, models) as records, its enumerations as
--     data types.
--   * Datetime: the calendar fields of Python's datetime, which the periods and windows compute with.
--   * Table, Db: a table is a list of rows, `get` is `db.get`, `update` a bulk UPDATE of one row; `Db`
--     is the database as one session sees it, with the set of users whose cached quota is to be
--     dropped (api/app/db/session.py).
--   * Billing and its children: api/app/services/billing.py. Pricing computes costs, Period the
--     ends of periods, Accounts what a user may spend, Charge is `charge_user`, Refund is
--     `refund_to_sources`, Grant is `topup_wallet` and `grant_subscription`, Renew is
--     `renew_subscription`, Renew/Scan the worker of api/app/services/subscriptions_renewal.py. Each
--     function takes the database and the clock's reading and returns the
--     database after it; `none` is an exception, after which the transaction is rolled back.
--     Pricing/Rounding relates the exact prices to the doubles that the code computes, and Others says
--     what a charge and a refund leave alone.
--   * Keys: api/app/services/api_key.py. Window has `next_quota_window`, `init_periodic_window` and
--     the loop that rolls a window forward, State has `enforce_key_state`, Cached its variant on a
--     snapshot, Sweep the worker of api/app/services/api_key_expiry.py.
--   * TtlCache: the LRU cache with a time to live of api/app/core/ttl_cache.py, in front of the
--     database on the hot path.
--   * Router: api/app/services/providers/router.py. Targets has `_ordered_targets`, Weighted
--     `_weighted_pick`, RoundRobin `_round_robin_pick`, Route the end of `select_route`.
--   * Orders: the payment callbacks of api/app/api/v1/orders.py, which deliver through Billing/Grant.
--   * Plans: the purchase of a plan with the wallet, api/app/api/v1/plans.py.
--   * QuotaCache: the mirror of the funds in Redis, api/app/services/quota_cache.py. Redis is an
--     interface with its documented laws, Hydrate loads a user's funds, Check is the check on the hot
--     path and Apply has the writes after a commit.
--   * Providers: protocol ids and connectors, api/app/services/protocols/ids.py and
--     api/app/services/providers/registry.py; Python's functions on texts are an interface.
--   * ChatStream: the converter of chat streams of api/app/services/protocols/chat.py. Texts are lists
--     of code points; decoding, `json.loads` and the reading of an event's data lines are an argument.
--   * ImageRelay: `execute_image_relay` of api/app/services/image_relay.py, which holds the estimated
--     cost through Billing/Charge, calls an upstream and gives back through Billing/Refund.
--   * Ingest: `_ingest_entry` of api/app/services/envoy/als_server.py, which bills and logs a chat when
--     Envoy reports it, through Billing/Charge, and mirrors the charge through QuotaCache/Apply.
--   * AccessLog: api/app/services/envoy/access_log_buffer.py, the last lines of each node's log.
--   * Rates: api/app/services/quota.py. Snapshots: the snapshot caches of
--     api/app/services/api_key_cache.py, on top of TtlCache.
--   * Subscriptions: cancellation, resumption and manual renewal, api/app/api/v1/subscriptions.py.
--   * Prelude and its children: the shared names, integers, Boolean tests and list lemmas. Samples and
--     the Examples modules: small databases, keys, caches and policies on which the code runs.
--
-- How they interact: a request's key passes Keys.State, the router names a model, Billing.Accounts
-- decides whether the user can pay, Billing.Pricing prices the usage and Billing.Charge books it; a
-- worker runs Billing.Renew on subscriptions whose period is over.
--
-- Choices of the model:
--   * Money is a signed integer of cents; rates, token counts and counts of images are natural numbers,
--     except for the token counts that an image upstream reports, which may be negative or unreadable.
--     Costs are rounded up with integers; below 2^53 micro-cents the code's division of floats and
--     `ceil` give the same, as Billing/Pricing/Laws says for a division that rounds to the nearest.
--   * All instants are UTC, as the code makes them before it compares. Years above 9999, at which
--     Python raises, are not excluded.
--   * Subscriptions that end at the same instant keep the table's order, which the query leaves open.
--   * `mirrors` says whether a bulk UPDATE also changes the object that the session holds for the row.
--   * The loop over quota windows runs on fuel, the distance from the first window's end to the clock;
--     each step moves the end forward by a microsecond at least, so it is enough. The other loops are
--     structural.
--   * `random.uniform` and the reply of Redis are arguments. A draw is counted in units of 2^-53.
--   * Texts of notes and of errors are data types that keep the values put into them.
--
-- Not modelled: the strategy `smart` (rules and classifier) and the loading of a route's rows; times
-- to live in Redis and the deletion of every key at startup; the messages by which processes tell
-- each other of an eviction; the other HTTP endpoints and the payment providers; the other
-- conversions between protocols and the provider adapters; the rest of the Envoy control plane;
-- authentication; the web frontends. They are network code, or build on the parts above. Columns
-- that no modelled code reads are left out of the rows.
pub mod Prelude
pub mod Datetime
pub mod Models
pub mod Table
pub mod Db
pub mod Samples
pub mod AccessLog
pub mod Billing
pub mod Keys
pub mod TtlCache
pub mod Router
pub mod Orders
pub mod Subscriptions
pub mod QuotaCache
pub mod Rates
pub mod Snapshots
pub mod Plans
pub mod Providers
pub mod ImageRelay
pub mod ChatStream
pub mod Ingest
