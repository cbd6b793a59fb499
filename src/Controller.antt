-- ===== src/Controller.antt =====
-- The package internal/controller: the reconcilers of the operator's resources.
pub mod Results
pub mod Lookup
pub mod Infrastructure
pub mod Plain
pub mod KtMachines
pub mod Lifecycle
pub mod Fleet
pub mod RandomNames
pub mod MachineDeployments
pub mod Owners
pub mod Scaffolds
