-- ===== src/Gsp.antt =====
-- ecommerce_super/easyecom/api: what guards the exchange with a custom GSP.
pub mod Circuit
