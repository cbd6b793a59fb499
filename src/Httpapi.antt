-- ===== src/Httpapi.antt =====
-- The package cmd/httpapi: the calls to KT Cloud.
pub mod Types
pub mod CloudInit
pub mod Send
pub mod ControlPlaneVm
pub mod Bootstrap
pub mod WorkerVm
pub mod Servers
pub mod ServerAnswers
pub mod PublicIps
pub mod Networks
pub mod FirewallSettings
pub mod Kubeconfigs
pub mod Login
pub mod Environment
pub mod Plain
pub mod Creates
