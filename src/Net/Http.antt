-- ===== src/Net/Http.antt =====
-- The HTTP server's message layer, src/net/http.
pub mod Request
pub mod Context
pub mod Response
pub mod Server
