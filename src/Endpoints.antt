-- ===== src/Endpoints.antt =====
-- src/endpoints/: the handlers of the service.
pub mod Handler
pub mod KeyGeneration
pub mod KeyWrapper
pub mod Tink
pub mod ServiceRequest
pub mod PrivateKeys
pub mod GcpKeys
pub mod Refresh
pub mod PublicKeys
pub mod Policies
pub mod Cose
pub mod Acl
pub mod Proposals
