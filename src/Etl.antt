-- ===== src/Etl.antt =====
-- Extract, transform, load: the steps of backend/etl that turn a document into chunks.
pub mod Tokens
pub mod Sentences
pub mod Chunk
pub mod Clean
