-- ===== src/Transport.antt =====
-- The listeners in front of the chokepoint: internal/enforce/ingress.go, internal/enforce/http.go
-- and internal/enforce/mcp.go.
pub mod Ingress
pub mod Http
pub mod Mcp
pub mod Listeners
