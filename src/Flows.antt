-- ===== src/Flows.antt =====
-- ecommerce_super/easyecom/flows: what the flows share.
pub mod Isolation
pub mod Products
