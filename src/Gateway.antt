-- ===== src/Gateway.antt =====
-- The gateways of src/db_gateway: the queries that they send, over the database as a parameter.
pub mod Files
pub mod Users
pub mod Sessions
mod Tests
