-- ===== src/Transfer.antt =====
-- The transfer of files: include/beamdrop/transfer and src/transfer.
pub mod Chain
pub mod Disk
pub mod Progress
pub mod Path
pub mod Wire
pub mod Receiver
pub mod Sender
pub mod EndToEnd
pub mod Task
mod Tests
