-- ===== src/Knowledge.antt =====
-- Knowledge bases: the state machines of documents and of reindexing
-- (backend/common/document_status.py, backend/services/knowledge).
pub mod DocumentStatus
pub mod ReindexPlan
pub mod Tables
pub mod Reingest
pub mod Reindex
pub mod Rescue
pub mod Cleanup
