-- ===== src/Gateway.antt =====
-- The gateway to the model providers, backend/ai/gateway.
pub mod Adapter
pub mod Chat
pub mod Embed
pub mod Rerank
pub mod Json
pub mod Sse
pub mod Vectors
pub mod Vendors
pub mod Stream
