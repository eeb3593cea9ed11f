-- ===== src/Examples.antt =====
-- The code run on concrete inputs, and the theorems applied to them.
mod Policies
mod Setup
mod Jobs
mod Requests
mod Stores
mod Limits
mod Guards
mod Records
mod Installations
mod Switches
mod Replays
mod Manifests
mod Pipelines
mod Queues
mod Handovers
