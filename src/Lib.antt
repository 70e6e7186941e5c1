-- ===== src/Lib.antt =====
-- ecommerce_super connects ERPNext to EasyEcom. What is modelled here is its machinery for work that
-- can fail: the queue of background jobs, the HTTP client, batches and the circuit breaker.
--
-- A caller enqueues a job (Queue/Facade): a row in state Queued and a task for RQ. A worker runs
-- the task (Queue/Worker): it marks the row Running, takes a slot of the company's semaphore
-- (Queue/Semaphore), calls the flow handler and settles the row by what the handler raised
-- (Errors), with a new task after a delay (Queue/Backoff) when the error is transient and attempts
-- are left. A sweep (Queue/Reclaim) takes up rows whose worker died. A flow handler talks to
-- EasyEcom through a client that takes a token of the account's bucket (Client/Bucket) and repeats
-- a call by the retry policy (Client/Retry); a reply becomes a body or an error (Client/Response),
-- bulk data comes in pages (Client/Pages), what is logged is redacted first (Payload/Redaction).
-- Between ERPNext documents and EasyEcom payloads stand field mappings (Mapping): a mapping compiles into
-- a ruleset (Mapping/Compiler) that checks paths, expressions and arguments (Mapping/Paths, Sandbox,
-- Args), and an executor (Mapping/Executor) runs its rules, which read and write JSON by paths
-- (Payload/Path), transform values (Mapping/Transforms) or hand rows to the executor of another mapping. A flow that handles many
-- records does so under savepoints (Flows/Isolation), and the polling of a custom GSP stops while a
-- circuit breaker is open (Gsp/Circuit). The pull of products walks EasyEcom's pages from a stored cursor
-- and hands the products of each page to such a batch (Flows/Products); the taxes of an item come, company by
-- company, from a map of EasyEcom's tax rules (Tax). What was last done for a document stands in one record per direction
-- (Records), and a user's retry of that record enqueues the document's next push.
--
-- Files and the code they are about, under ecommerce_super/easyecom/:
--   Base                 shared types, Boolean tests and lemmas
--   Errors               exceptions.py
--   Queue/Routing        queue/routing.py
--   Queue/Job            doctype/easyecom_queue_job/easyecom_queue_job.py
--   Queue/Semaphore      queue/concurrency.py; Interleaving is any order of the steps of workers and of the sweep
--   Queue/Backoff        queue/workers.py, compute_backoff
--   Queue/Rq             what frappe.enqueue is called with and answers
--   Queue/Worker         queue/workers.py, execute_job and _reenqueue
--   Queue/Reclaim        queue/workers.py, reclaim_orphaned_jobs
--   Queue/Facade         queue/__init__.py
--   Client/Retry         client/retry.py
--   Client/Bucket        client/rate_limit.py
--   Client/Response      client/client.py, what a reply raises
--   Client/Pages         client/client.py, paginated
--   Payload              JSON trees
--   Payload/Redaction    utils/redaction.py
--   Payload/Path         utils/jsonpath.py (Reading) and field_mapping/path.py (Writing)
--   Mapping/Paths        field_mapping/path.py, validate_path: its regular expressions, read apart from the reader's
--   Mapping/Sandbox      field_mapping/sandbox.py
--   Mapping/Args         field_mapping/transformers.py, the registry and its validators
--   Mapping/Transforms   field_mapping/transformers.py, the transformers
--   Mapping/Compiler     field_mapping/compiler.py
--   Mapping/Executor     field_mapping/executor.py
--   Gsp/Circuit          api/gsp_circuit.py
--   Flows/Isolation      flows/_isolation.py
--   Flows/Products       flows/item_pull.py, with the checks of doctype/easyecom_item_map/easyecom_item_map.py on a row it saves
--   Tax                  doctype/easyecom_tax_rule_map/easyecom_tax_rule_map.py; Tax/Resolver.resolve_all is the loop over
--                        companies of flows/item_pull.py
--   Records              doctype/easyecom_sync_record/easyecom_sync_record.py; Records/Refire is retry_now and its handlers
--   Tests                concrete runs
--
-- Definitions keep the names of the functions they translate, without a leading underscore; a function
-- with branches is split into helpers that take the answer to a test as an argument. Rows, counters and
-- caches are passed from step to step. Flow handlers, frappe.enqueue, RQ, the clock and the random
-- numbers are arguments. Times are natural numbers, in seconds for the queue and in ticks for the
-- client; the rounding of floats is not modelled. The loops of the client recurse on what is left of
-- their range (6 attempts) or of the clock readings that a call sees before its deadline, so neither
-- needs fuel. The walk over pages has no bound of its own and takes fuel: `max_pages` is enough where it
-- is given, and the length of the chain of pages where it is not. The walk of the product pull takes the number
-- of pages that may follow the first, which is `max_pages` less one, or enough for the chain.
--
-- The compiler recurses on the depth of composition that is left, so the bound on that depth is its own. The
-- executor makes executors inside one another without a bound; the model takes one and raises RecursionError
-- past it, and the depth that the compiler allows is enough. Python's ast, json and safe_eval, the database and
-- the transformers on dates, decimals, floats and letter case are arguments of the mapping engine.
--
-- A worker may die at any point of a job, and the sweep does not see where: the steps of Queue/Semaphore/Interleaving
-- count apart the workers that died with a slot and without one.
--
-- In Flows/Products what the pull of one product calls (field mapping, drift detection, combos, taxes, ERPNext) is the
-- record `Desk`, an argument; the taxes are modelled on their own, with rates in ten-thousandths.
--
-- Not modelled: what only fills log records, the flows other than the pull of products, and everything that is a query or a
-- form of Frappe.
pub mod Base
pub mod Errors
pub mod Queue
pub mod Client
pub mod Payload
pub mod Mapping
pub mod Gsp
pub mod Flows
pub mod Records
pub mod Tax
pub mod Tests
