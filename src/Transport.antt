-- ===== src/Transport.antt =====
-- internal/transport: the request funnel that every HTTP call of the SDK goes through.
pub mod Header
pub mod Types
pub mod Send
pub mod Attempt
pub mod Executor
pub mod Stream
pub mod Json
pub mod Graphql
mod Examples
