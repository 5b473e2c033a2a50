-- ===== src/Lib.antt =====
-- BeamDrop, a program that sends files and directories over TCP.
--
-- A sender and a receiver speak packets over a connection. A packet is a header of 52 bytes and a
-- payload (protocol/); the payloads that announce something are texts (transfer/: the manifest, the
-- file info, the acknowledgement of a resume offset, the directory info). For each file the
-- receiver reads the file info, looks in its resume state file and on its disk for how much of the
-- file it has, answers with that offset, and takes data packets until the end of the file; it then
-- compares the size and the SHA-256 of the file with what was announced. A server runs the receiver
-- on a worker thread, which a user interface starts and stops.
--
-- The files, each with the code it is about:
--   Prelude, Text: what the C++ standard library does with bytes, lists and text where the code
--     uses it: std::stoull, std::getline, and std::regex_search for the code's patterns.
--   Errors: the exception classes, as the error of a result. Messages, hosts and paths that an
--     exception carries are left out, but for those of the sockets.
--   Json: the escaping and the field patterns that src/transfer/FileInfoCodec.cpp and
--     src/transfer/ResumeManager.cpp have in common.
--   Protocol: include/beamdrop/protocol. Protocol/Codec is Serializer.cpp and PacketParser.cpp,
--     Protocol/PacketIo is PacketIO.cpp.
--   Network: src/network/TcpConnection.cpp. The record Os is the operating system: recv and send are
--     its fields, and its laws are what POSIX promises of them. Network/Stream is read_exact and
--     write_all, Network/Handles the ownership of the socket handle, Network/Pipe a system that
--     meets the laws. Network/Sockets is TcpServer.cpp, TcpClient.cpp and SocketPlatform.hpp of
--     src/network on POSIX; its record Sockets has the calls of the system that open, bind, accept,
--     connect and close, with what the manual says of the handles.
--   Payload: FileInfoCodec.cpp, TransferManifest.cpp, ResumeAckCodec.cpp and
--     DirectoryInfoCodec.cpp of src/transfer.
--   Resume: src/transfer/ResumeManager.cpp, on the text of the state file.
--   Sha256: src/utils/Sha256.cpp. The padding of the standard is written down in Sha256/Padding.
--   Transfer: Transfer/Receiver is src/transfer/Receiver.cpp, with safe_join and the place that a
--     path stands for in Transfer/Path; the resume state file is a file on the receiver's disk;
--     Transfer/Sender is src/transfer/Sender.cpp. Transfer/Disk is the disk as both see it,
--     Transfer/Progress is include/beamdrop/transfer/Progress.hpp, Transfer/Chain the calls that leave
--     a state when they throw, Transfer/Wire a file as bytes on the wire, Transfer/EndToEnd a
--     sender and a receiver together for a file, and Transfer/Task for a whole task.
--   Filesystem: src/filesystem/FileScanner.cpp, on a tree as the file system. Filesystem/Normal is
--     what the code uses of std::filesystem::path.
--   Config: src/config/AppConfig.cpp, on the text of the file. Cli: the options of src/main.cpp,
--     and in Cli/Commands its commands and `main`. Logger: src/logger/Logger.cpp.
--   App: App/Send is src/app/SendService.cpp, with the tests of a request in App/Request, and
--     App/Receive is src/app/ReceiveService.cpp; App.antt has their results and catch clauses, and
--     App/Delivery puts the two together.
--     App/ReceiveServer is src/app/ReceiveServerService.cpp, as steps of its callers and of its worker
--     thread in any order.
--
-- Integers are natural numbers; where the code computes in 16, 32 or 64 bits, the wrap-around is
-- written out. An exception is the error of a result; in Transfer a call also gives the state that it
-- leaves when it throws.
--
-- Loops that do not follow a list run on fuel. read_exact and write_all have as much as there are
-- bytes to move, since a successful call moves one at least; `decimal` writes 20 digits at
-- most, enough below 10 ^ 20 and so in 64 bits; the blocks of a hash and the chunks of
-- a hashed file have as much as there are bytes, since each takes one at least; the data loop of the
-- receiver has one more than the bytes of the stream, of which each packet takes 52 at least; the
-- chunks that the sender sends have one more than there are bytes in the file.
--
-- The loop of the serve command, which waits as long as the server runs, has a number of turns as an
-- argument, and its result says that it goes on.
--
-- Not modelled: what the worker of a server prints while the serve command waits; the Windows branch
-- of the sockets; the file helpers, which nothing calls; the bindings, the
-- backend and the frontend, which are in other languages; what a call that fails to write the resume
-- state file leaves of it; and the position of an open output stream whose file is at the same time the
-- resume state file. Allocation is taken to succeed, and paths to
-- have no symbolic links, but for those that the scanner refuses.

mod Prelude
pub mod Errors
pub mod Text
pub mod Logger
pub mod Json
pub mod Protocol
pub mod Network
pub mod Payload
pub mod Resume
pub mod App
pub mod Config
pub mod Cli
pub mod Sha256
pub mod Filesystem
pub mod Transfer
