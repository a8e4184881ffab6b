-- ===== src/Examples.antt =====
-- Runs at concrete inputs, and the theorems applied to them.
mod Policy
mod Redis
mod Store
mod Flusher
mod TopUp
mod Billing
mod FakeProvider
