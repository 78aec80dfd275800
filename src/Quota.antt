-- ===== src/Quota.antt =====
-- Tenant quotas: backend/services/platform/quota.py, and the modules that use them,
-- backend/services/conversation/budget.py and backend/services/platform/fairness.py.
pub mod Resource
pub mod Period
pub mod Plan
pub mod Service
pub mod Budget
pub mod Slots
