-- ===== src/Tests.antt =====
-- Runs of the model on a small deployment, and the properties at concrete inputs.
mod Sample
mod Runs
mod Facts
mod Examples
mod Running
mod Stores
mod Recording
