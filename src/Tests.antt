-- ===== src/Tests.antt =====
-- The theorems at concrete inputs.
mod Values
mod Quota
mod Identity
mod Rag
mod Etl
mod Settings
mod Reindex
mod Api
mod Clean
mod Reconcile
mod Gateway
mod Providers
mod Conversation
