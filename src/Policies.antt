-- ===== src/Policies.antt =====
-- src/policies/: the key release policy and the key rotation policy.
pub mod KeyRelease
pub mod KeyRotation
