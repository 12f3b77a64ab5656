-- ===== src/Tests.antt =====
-- Tests at fixed inputs, and the properties applied to them.
mod Data
mod Digests
mod Envelopes
mod Chunking
mod Memory
mod Stores
mod Maintenance
mod Walks
mod Guards
mod RefNames
mod Blooms
mod Cbors
mod References
mod Caches
mod Archives
mod Headers
