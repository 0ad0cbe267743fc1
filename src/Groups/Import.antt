-- ===== src/Groups/Import.antt =====
-- `import_group_transport` of i2pchat/core/i2p_chat_core.py: a text that came from a peer is decoded, checked
-- against what is known locally, merged into the state of its group and stored.
pub mod Checks
pub mod Snapshot
pub mod Transport
pub mod Results
pub mod Trusted
pub mod Trust
pub mod Made
pub mod Remembered
pub mod Once
