-- ===== src/Lib.antt =====
-- The backend of an SEO agent: accounts and organizations, background jobs that crawl and audit
-- websites, and the caches and retries around them.
--
-- The parts, their files here, and the code that they model:
-- - Jobs/Store: the table `jobs` and its queries, in backend/database/models.py and
--   backend/database/crud.py. Jobs/Service: the operations of `JobService` in
--   backend/services/job_service.py, under their own names. Jobs/Runner: `run_crawl_job`,
--   `run_audit_job`, `run_keywords_job` and `run_rank_job` of the same file, which are one function
--   `run_job` at the service called and the output stored. A runner calls `JobService` for each step,
--   and its service through the retry engine, with the arguments that `_execute_with_retry` passes
--   on. Jobs/Keywords: the service of a keywords job, in backend/services/keyword_service.py.
-- - Queue: `RedisJobQueue` of backend/queue.py, where jobs wait for a worker.
-- - Worker: `_execute_job_wrapper` and `submit_job` of backend/worker.py, which call a runner and
--   retry it. Worker/Loop: the body of its main loop, which takes jobs from the queue, and the
--   recovery of interrupted jobs. Worker/DeadLetters: `DeadLetterQueue` of backend/dead_letter_queue.py.
-- - Retry: `RetryEngine` of backend/retry.py.
-- - Discovery: `URLDiscoveryService` of backend/services/url_discovery_service.py. Text: strings as
--   code points, and `normalize_url`.
-- - LinkGraph: `LinkGraphService` of backend/services/link_graph_service.py, its redirect chains in
--   LinkGraph/Redirects and its counters in LinkGraph/Counts.
-- - Robots: `RobotsService` of backend/services/robots_service.py.
-- - Pagination: backend/database/pagination.py.
-- - Crawls/Rows: the functions on rows of `crawl_jobs` in backend/database/crud.py. Crawls/Tables,
--   Crawls/Stats: the pages and issues of crawls, and the numbers of a crawl. Crawls/Requests,
--   Crawls/Routes: the handlers of backend/api/crawl_routes.py, which check the role in Orgs for the
--   website in Workspaces/Rows; Crawls/Routes/Changes says what a request can do to the tables.
--   Crawls/Lifecycle:
--   `CrawlLifecycleService` of backend/services/crawl_lifecycle_service.py.
-- - Cache: `InMemoryTTLCache` of backend/cache.py.
-- - Orgs: members, roles and invitations, in backend/api/org_routes.py and backend/database/crud.py.
-- - Workspaces: the projects and websites of organizations, in backend/api/project_routes.py and
--   backend/api/website_routes.py with backend/database/crud.py and backend/database/schemas.py.
--   A handler checks the role in Orgs, and then acts on the tables of Workspaces/Rows;
--   Workspaces/Steps says what a request can do to them.
-- - BrowserPool: `BrowserPool` of backend/browser_pool.py, its browsers, contexts and permits.
-- - Accounts: `login` of backend/api/auth_routes.py with the lockout of backend/database/crud.py and
--   the delay of backend/auth/security.py.
-- - Sessions: `refresh_tokens` of backend/api/auth_routes.py, with the sessions and used tokens of
--   backend/database/crud.py.
-- - Passwords: `change_password` and the reset of a password in backend/api/auth_routes.py, with
--   the history of backend/database/crud.py, and the test of strength and, in Passwords/Hashing,
--   the hashing of passwords of backend/auth/security.py.
-- - RateLimit: `check_rate_limit` and the guard of backend/rate_limiter.py, in memory and, in
--   RateLimit/Distributed, in Redis; RateLimit/Unshared is a process without Redis.
-- - Scaling: `get_scaling_hints` of backend/queue.py, and the tuning of backend/worker.py.
-- - Prelude, Dict and Json: shared names, Python's `dict` in insertion order, and JSON values.
--
-- State and time. A table is a dictionary of its rows by id, or a row by itself where a function
-- acts on one row. An operation takes the state and the clock that it reads, and returns the next
-- state. In Jobs a session holds an instance of a row, and a flush writes only the columns that it
-- changes, into a row that others may have changed meanwhile. The threads beside a runner are the
-- argument `env`: `env i` acts just before access `i` to the database, for the accesses 0 to 8.
-- An asynchronous function and its synchronous twin have the same body, and one definition stands
-- for both.
--
-- Loops. `RetryEngine.execute` runs `max_retries + 1` rounds, as its `range` does; the `while` of
-- `get_redirect_chains` runs on fuel, for which the number of pages and one more is enough; no other
-- loop of the program needs fuel.
--
-- Parameters stand for what is not in the repository: `urlparse` and `urljoin`, `str.lower` and
-- `str.strip`, `random`, PBKDF2 and MD5 of `hashlib`, `fnmatch`,
-- `float`, `re` where it is called with a variable pattern, the character classes, base 64, the
-- queries of a page, the Redis clients of the queues, the pipelines of the rate limiter and
-- Playwright. `ScraperService.audit_website` and `RankService.check_rank` are parameters too: their
-- runners call them without a required argument, so they are never entered. The test of a password is
-- a parameter of Accounts, whose results hold for any; Passwords/Hashing has the program's.
--
-- Not modelled: the listings of jobs, organizations and users, leads, reports and audit queries, which
-- only read or insert rows; registration, the verification of an address and access tokens, which
-- repeat the tokens of Passwords and Sessions; the worker's shutdown and heartbeat, logging, metrics
-- and middleware, which are threads and output around libraries; sitemaps, scraping and the parsing
-- of HTML and XML, whose work is done by libraries; and the calls of AI services.
pub mod Prelude
pub mod Dict
pub mod Json
pub mod Text
pub mod Retry
pub mod Jobs
pub mod Discovery
pub mod Cache
pub mod Crawls
pub mod Orgs
pub mod Accounts
pub mod Scaling
pub mod RateLimit
pub mod LinkGraph
pub mod Pagination
pub mod Robots
pub mod Queue
pub mod Worker
pub mod Sessions
pub mod Passwords
pub mod Workspaces
pub mod BrowserPool
