-- ===== src/Tests.antt =====
-- Runs of the model at concrete data, and the theorems at inputs that meet their hypotheses.
mod World
mod Machines
mod Deployments
mod Cloud
mod Kubeconfigs
mod Reconcilers
mod Logins
mod Lifecycle
mod Fleet
mod Workers
mod Conflicts
mod Start
