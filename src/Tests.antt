-- ===== src/Tests.antt =====
-- Runs of the definitions at fixed inputs, most of them those of apps/api/src/__tests__, and the
-- theorems at inputs that meet their hypotheses.
mod Program
mod Phone
mod Spam
mod Directory
mod Calls
mod Identities
mod Export
mod Confirmed
mod Extraction
mod Jobs
mod Growth
mod Routes
mod Queue
