-- ===== src/Api.antt =====
-- internal/api/server.go: the HTTP surface of the agent.
pub mod Server
pub mod Router
pub mod Access
pub mod Creation
pub mod Proxy
pub mod Acceptance
