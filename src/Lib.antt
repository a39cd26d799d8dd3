-- ===== src/Lib.antt =====
-- The Go API of MUDAHURUS, an order-management service for small sellers (api/ of the repository).
--
-- The program. An Echo server (api/internal/server) mounts handlers behind guards
-- (api/internal/auth/middleware.go, api/internal/tenancy). A handler decodes a request and calls
-- a service (catalog/service.go, orders/service.go, auth/service.go), which checks its input,
-- calls the repositories (catalog/repo.go, orders/repo.go, auth/store.go) and emits events
-- (events/events.go) or mails (notify/notify.go). The orders' service asks the catalogue's service
-- for products. The queries behind a seller's request are scoped by the tenant that the guard put
-- into the context; the public pages and the payment webhook find the tenant by a user name or an order.
--
-- The model. An operation is an `Action`: it takes a `World` (the tables, the events, the mails, the files,
-- and how many times the program has turned to the database, the clock or the random source) and
-- returns a value or an error beside the new world. A statement may fail at any time: `Env.fails`
-- says when, and the theorems that do not ask for a healthy database hold whatever it says. What
-- lies outside the program (clock, random UUIDs, PostgreSQL's lower() and ILIKE, storage, UUID
-- parsing, Unicode tables) is the record `Env`; the cryptographic libraries are the records
-- `Crypto` and `Argon` of the accounts.
--
-- The files.
--   Shared        helpers: tests on numbers, tables as lists and their keys, strings as code points,
--                 ℤ, decimals, float64
--   Schema        the rows of api/internal/db/migrations and the structs of the repositories
--   World         actions, statements, transactions; its modules Preserves, Inversion, Failures and
--                 Quiet reason on them
--   Httpx         api/internal/httpx: errors, error handler, validator, paging
--   Tenancy       api/internal/tenancy, and what one tenant owns in the tables
--   Catalog       api/internal/catalog: slugs, repository (`CreateProduct` is `Repo.create_product`),
--                 service, handlers with the upload of images
--   Orders        api/internal/orders: statuses and `CanTransition`, repository and the abstract book
--                 that it implements (`Repo.Book`), service, the PDF of an invoice
--                 (`Invoice`), handlers with the upload of payment proofs
--   Coupons       api/internal/coupons: repository and handlers
--   Customers     api/internal/customers: repository, handlers, loyalty codes
--   Dashboard     api/internal/dashboard: the counts
--   Storage       api/internal/storage: names of objects, uploads, local files, signed links
--   Storefront    api/internal/storefront: the public pages of a store and its checkout
--   Server        api/internal/server: the handler of local files, the count of tenants
--   Auth          api/internal/auth: passwords, tokens and guards, store, service, routes
--   Enhancements  api/internal/enhancements: routing and proposals (`Router`), their execution
--                 (`Copilot`), reminders (`Chase`), notifications (`Notify`), content, revenue
--                 (`Trends`), charges and the webhook (`Payments`)
--   Requests      sequences of requests: those of sellers that write tables, the enhancements'
--                 included, with the reads of the catalogue and the orders; public uploads, the
--                 callback of the payment gateway and the sweep of stale orders
--   Tests         a small world and the theorems at concrete inputs
-- A Go name in camel case is here in snake case: `UpdateStatus` of the service is
-- `Orders.Service.update_status`, of the repository `Orders.Repo.update_status`.
--
-- Conventions and bounds. UUIDs and times are natural numbers (seconds), uuid.Nil is 0; prices and totals are
-- whole sen as integers, with the range of NUMERIC(12,2) as a constraint of the insert. The code has
-- them as float64s of ringgit and the database rounds what it stores to sen. For inputs of at most two
-- decimals this gives the integers of the model: a stored amount is below 10^10 ringgit, where a
-- float64 is off by at most 10^-6, so that a product of a price and a quantity, and a sum of such
-- products, rounds to the exact amount of sen for any order of fewer than a thousand lines. Inputs with
-- more decimals are not modelled. Where float64s are compared or truncated before anything rounds
-- them (the rate of change of `Trends`, the conversion and the charge of `Payments`), they are
-- computed as IEEE 754 has it (`Shared.Float64`), for numbers that are not negative.
--
-- A table is a list of rows in the order of insertion; a statement's constraints (UNIQUE, CHECK,
-- REFERENCES, ON DELETE) are written out with it. Every function is structurally recursive: no fuel
-- is needed, but for the digits of a number, where the number itself is enough, and for the exponent
-- of a float64, where 1100 steps pass the range of exponents.
--
-- What the copilot's regular expressions capture, full-text search, LIKE on ids, time.Parse and
-- time.Format, ParseFloat and ToUpper are arguments of the definitions that use them, and so is the
-- order of the rows of the one query without ORDER BY that has more than one row.
--
-- Not modelled: the encoding of requests and answers, S3, the proxy to the assistant, the access
-- log, the HTML of the mock payment page, the request to WhatsApp, the ticker of the reminders,
-- the wiring of the routes, the runner of the migrations, the metrics, and the web, RAG and
-- migration code, which is in other languages. Concurrency is the order of requests: two requests
-- do not interleave between their statements.
pub mod Shared
pub mod Schema
pub mod World
pub mod Httpx
pub mod Tenancy
pub mod Catalog
pub mod Orders
pub mod Auth
pub mod Coupons
pub mod Customers
pub mod Dashboard
pub mod Storefront
pub mod Storage
pub mod Server
pub mod Enhancements
pub mod Requests
pub mod Tests
