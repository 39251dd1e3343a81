-- ===== src/Examples.antt =====
-- Runs of the models on small inputs, and the theorems at inputs where their conditions hold.
mod Deliveries
mod Numbers
mod Rounds
mod Slots
mod Entries
mod Payloads
mod Queues
mod Epochs
mod Places
mod Windows
