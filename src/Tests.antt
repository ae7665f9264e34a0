-- ===== src/Tests.antt =====
-- Runs at concrete inputs, and the theorems applied to them.
mod Throttle
mod Triggers
mod Outbox
mod Changes
mod Diff
mod Normalize
mod Snapshots
mod Webhook
mod Sessions
mod Scopes
mod Expiry
mod Text
