-- ===== src/Client.antt =====
-- ecommerce_super/easyecom/client: the outbound HTTP client.
pub mod Retry
pub mod Bucket
pub mod Response
pub mod Pages
