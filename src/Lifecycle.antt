-- ===== src/Lifecycle.antt =====
-- Properties of several instructions together (program/src/instructions).
pub mod Stale
pub mod Authority
pub mod Threshold
pub mod Validity
pub mod Runs
pub mod Votes
pub mod Provenance
pub mod Owners
pub mod Voters
pub mod Quorum
pub mod History
pub mod Forged
pub mod Persistence
pub mod Outdated
pub mod Signatories
pub mod Ballot
