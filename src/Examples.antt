-- ===== src/Examples.antt =====
-- Runs of the models on concrete data, at which the theorems' hypotheses hold.
mod Keys
mod Desktop
mod Places
mod Labels
mod Companion
mod Signing
mod Slots
mod Sites
mod Vaults
mod Guards
mod Forms
mod Suggested
mod Options
mod Rows
mod Otp
mod Logins
mod Buffers
