-- ===== src/Auth.antt =====
-- auth: the token cache and the request for a token.
pub mod Cache
pub mod Fetch
mod Examples
