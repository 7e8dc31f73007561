-- ===== src/Writer/Slave.antt =====
-- What a slave makes of the blocks and forks that it reads (prototype/Writer.cpp), beside a store that
-- keeps what the backup table is to hold.
pub mod Mirror
pub mod Queued
pub mod Follow
pub mod Standby
pub mod Retracted
pub mod Backlog
