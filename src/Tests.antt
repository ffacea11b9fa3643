-- ===== src/Tests.antt =====
-- The theorems at concrete inputs, and runs of the definitions.
mod Breaker
mod Traffic
mod Requests
mod Routes
mod Scores
mod Storage
mod Scans
mod Cache
mod Auth
mod Risk
mod Alerts
mod Scanner
