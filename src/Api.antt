-- ===== src/Api.antt =====
-- The resource types of api/v1beta1, passed on from one module for each file of types.
pub mod Meta
pub mod Machines
pub mod Templates
pub mod Deployments
pub mod Clusters
pub mod Firewalls
pub mod Tokens
pub mod Scaffolds
pub mod Lists
pub mod Registration
pub use Meta.*
pub use Machines.*
pub use Templates.*
pub use Deployments.*
pub use Clusters.*
pub use Firewalls.*
pub use Tokens.*
pub use Scaffolds.*
pub use Lists.*
