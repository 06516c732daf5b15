-- ===== src/Http.antt =====
-- src/http: the websockets and the HTTP server.
pub mod WebSocket
pub mod Query
pub mod Types
pub mod ModemRoutes
pub mod SendRoute
pub mod DbRoutes
pub mod Auth
pub mod App
