-- ===== src/Tests.antt =====
-- Runs of the model at concrete inputs, over a platform that computes.
mod Toy
mod Frames
mod Keyrings
mod Stores
mod Tables
mod Logs
mod Lances
mod Calls
mod Columns
mod Models
