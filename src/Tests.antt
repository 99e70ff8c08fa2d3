-- ===== src/Tests.antt =====
-- The model run on concrete machines, and the theorems at inputs that meet their hypotheses.
mod Containers
mod Machines
mod Run
mod Sessions
mod Debugging
mod Witnesses
mod MoreWitnesses
