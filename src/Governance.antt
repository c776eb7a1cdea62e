-- ===== src/Governance.antt =====
-- src/actions/: the governance actions, by which accepted proposals set the policies. An action that
-- throws leaves the tables as they were, since CCF drops the transaction of the exception.
pub mod Checks
pub mod KeyRelease
pub mod Tables
mod Tests
