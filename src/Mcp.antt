-- ===== src/Mcp.antt =====
-- sapl_fastmcp/src/sapl_fastmcp: the enforcement of the components of an MCP server.
pub mod Subscription
pub mod Gate
pub mod Listing
pub mod Access
mod Tests
