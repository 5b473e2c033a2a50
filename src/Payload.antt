-- ===== src/Payload.antt =====
-- The payloads of the packets: src/transfer/TransferManifest.cpp (HELLO), FileInfoCodec.cpp
-- (FILE_INFO), ResumeAckCodec.cpp (RESUME_ACK) and DirectoryInfoCodec.cpp (DIRECTORY_INFO).
pub mod Manifest
pub mod FileInfo
pub mod ResumeAck
pub mod DirectoryInfo
mod Tests
