-- ===== src/Rag.antt =====
-- The pure logic of retrieval: backend/rag.
pub mod Chunk
pub mod Fusion
pub mod Select
pub mod Citation
pub mod Metrics
