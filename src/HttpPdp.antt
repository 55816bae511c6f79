-- ===== src/HttpPdp.antt =====
-- sapl_base/src/sapl_base/transport/http_pdp_client.py: the client of the PDP over HTTP.
pub mod Auth
pub mod Validation
pub mod Request
pub mod Sse
pub mod Stream
mod Tests
