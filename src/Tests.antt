-- ===== src/Tests.antt =====
-- Runs of the model, and the theorems at concrete inputs.
mod Manager
mod Digest
mod Client
mod Pyxis
mod PyxisImage
mod PyxisRepo
mod Kafka
mod Vmsync
mod Cleaner
mod Expsync
mod Amsclient
