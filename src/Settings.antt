-- ===== src/Settings.antt =====
-- The settings of a knowledge base: backend/services/knowledge/kb_config.py, and the retrieval
-- parameters of backend/services/rag/params.py.
pub mod Values
pub mod Specs
pub mod Write
pub mod Read
pub mod Validate
pub mod Params
pub mod Bounds
pub mod Agreement
pub mod Stored
pub mod Whole
pub mod ChunkStored
pub mod ChunkBounds
