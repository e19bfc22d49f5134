-- ===== src/Tests.antt =====
-- Witnesses and runs.
mod Samples
mod Memory
mod Disk
mod Granted
mod Engine
mod Ssh
mod Subid
mod Activation
mod Cache
mod Names
mod Metadata
mod Ranges
mod Getsubids
