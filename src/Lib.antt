-- ===== src/Lib.antt =====
-- The core of omnivore-go, a Go backend that keeps web pages and feed items for later reading: what
-- happens to a URL, a feed, a query and a job between the API, PostgreSQL and Redis.
--
-- The parts and the files that model them:
--
-- Bullmq (internal/bullmq/bullmq.go) is the queue that the API and the workers share. Keys holds the
-- names of a queue's keys; Redis is the server as a parameter, a record of the commands that the code
-- sends with what Redis documents of them, and the script moveToActive; Queue has AddBulk, PopJob,
-- getJob, CompleteJob and FailJob, each a function from a store to a result and a store. A request
-- that fails returns `none`, `false` or `error`, and nothing is assumed of the store behind it.
--
-- Workers (internal/queueprocessor/worker.go, internal/queue/worker.go) takes jobs off the queues:
-- Process has the dispatch by name, one round of a worker and what ends a job; the handlers are a
-- parameter of it, and those below are modelled on their own.
--
-- Jobs/Bulk (internal/jobs/bulk_action.go) is the job bulk-action: Filter has the query and
-- filterClause, whose SQL fragments are constructors with the numbers of their placeholders; Items
-- has the rows, what the conditions and the SET clauses mean, and the database as a parameter; Action
-- has the statements, the loops over the batches and HandleBulkAction. A loop runs on fuel, one more
-- than the total; every batch but the last counts a row, so that is enough (Finishes).
--
-- Jobs/Feed (internal/jobs/refresh_feed.go) is the job refresh-feed: Items has the decisions on one
-- item, Tasks the content-fetch tasks by URL, Subscription the loop over the items and the fallback,
-- Refresh the loop over the subscriptions and HandleRefreshFeed. World is all that a poll calls.
-- Times are nanoseconds; the clock of a store stands still until the store changes.
--
-- Jobs/AllFeeds (internal/jobs/refresh_all_feeds.go) is the job refresh-all-feeds: Groups has the
-- columns of the grouped query, their decoding and the payload, Enqueue the id of a poll and the jobs
-- that are added to the queue of Bullmq. What a payload becomes is read by Jobs/Feed.
--
-- Jobs/SavePage (internal/jobs/save_page.go) is the job save-page: Slug has the slug of a title,
-- Page the item, the rows and all that the job calls as a parameter, Save where the content comes
-- from, the decisions on the item, and the insert or update.
--
-- Jobs/ReadPositions (internal/jobs/sync_read_positions.go) is the job sync-read-positions: Sets has
-- the keys and sets of Redis, Sync the largest progress, the UPDATE and the loop over the replies of
-- SCAN, which are given in order with what fails at each key. Floats are a parameter with the laws of
-- their order.
--
-- Jobs/Rules (internal/jobs/trigger_rule.go, internal/db/db.go: AuthTrx) is the job trigger-rule:
-- Trigger has the rules, their actions, and the transaction with its aborted state. What fails in the
-- database is a parameter; the triggers of the tables, which keep the label names, are left out.
--
-- Graphql (internal/graphql/resolver/schema.resolvers.go, internal/repository) is the mutations of
-- labels, items and highlights, SaveURL and Search: Search and Save put the resolvers behind the
-- middleware (cmd/server/api.go) and in front of the models of the two services; Tables has the
-- rows and the queries of the repositories, under the row policies of internal/migrations for a
-- user who is no administrator, Inputs and Resolver the mutations, Rules and Served what is enough
-- to show of the writes for a relation to hold between the tables at all requests.
--
-- Fetch (internal/handler/handler.go) is the job fetch-content, which caches a page and queues a
-- save-page job for each user: Job has the payloads, keys and priorities, Process the job itself.
-- Paths holds what the two jobs share: the paths in the storage.
--
-- SaveUrl (internal/service/save_url.go) is SaveURL: Address has the checks and the cleaning, Items
-- the rows (internal/repository/library_item.go), Service the row and the job that are written;
-- Once and Private hold proofs.
--
-- Accounts (internal/service/user_create.go, internal/api/handler/auth.go) creates users and signs
-- them in: Names has the normal form of the input, Rows the tables with the database and bcrypt as a
-- parameter, Create the lookups and the transaction, and Login the check of a password.
--
-- Auth (internal/auth/apikey.go, internal/auth/jwt.go, internal/api/middleware/auth.go) finds the
-- user of a request: Keys has the rows of the API keys and what is called for them as a parameter,
-- ApiKey the making and the checking of a key, Middleware the tokens, over package jwt as a
-- parameter, and the order in which a request's key, header and cookie are read.
--
-- Search (internal/service/search.go) is the search: Query has the query language, Conditions the
-- conditions and the order that are handed to the database, Library the database as a parameter, and
-- Service one page of a search. Modules named for a property, here and above (Effects, Totals, Newer
-- and the like), hold its proof.
--
-- Prelude has what they share: Go strings as lists of code points (Text), the functions of package
-- strings, Sscanf and FormatInt on native numbers, and the tables of package unicode as a
-- parameter. A module Sample holds a concrete instance of each parameter, and a module Tests runs
-- the code on it.
--
-- Machine integers: a doubling of a delay, the time of a retry and the next time of a poll wrap
-- around at 64 bits, and so does the sum that bounds a batch; scores of jobs are float64, exact
-- below 2^53. Counters, times and priorities are natural numbers.
--
-- Not modelled: log lines, metrics, HTTP, the generated GraphQL code and the conversions to its
-- types, the headless browser, the expiry of keys in Redis, and the text of the SQL statements
-- beside their conditions, arguments and effects.
pub mod Accounts
pub mod Auth
pub mod Bullmq
pub mod Fetch
pub mod Graphql
pub mod Jobs
pub mod Prelude
pub mod SaveUrl
pub mod Search
pub mod Workers
