-- ===== src/Queue.antt =====
-- ecommerce_super/easyecom/queue: the job row, its routing, the worker and the facade.
pub mod Routing
pub mod Job
pub mod Semaphore
pub mod Backoff
pub mod Rq
pub mod Worker
pub mod Facade
pub mod Reclaim
