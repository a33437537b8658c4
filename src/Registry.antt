-- ===== src/Registry.antt =====
-- mgd/src/executor/registry.rs: the processes that are frozen and those that are checkpointed, each
-- with its copy on disk. A write to disk is taken to succeed.
pub mod Frozen
pub mod Checkpointed
pub mod Laws
