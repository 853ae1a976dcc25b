-- ===== src/Tests.antt =====
-- Runs of the models at concrete inputs, and the theorems at inputs that meet their hypotheses.
mod Signal
mod Intersection
mod Sessions
mod Stabilizer
mod Pipeline
mod Vehicles
mod Hardware
mod Server
mod Runtime
