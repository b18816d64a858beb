-- ===== src/Lib.antt =====
-- Verification of xchange, a client (xcc) and a server (xcd) that transfer a message or a file over
-- one TCP connection, in the clear or encrypted.
--
-- The program and the files that model it:
--
-- * The wire protocol, src/xchange.hpp. Wire.antt has the enumerations, constants and frames
--   (CTRL_FRAME, DATA_FRAME_HEADER, ACK_FRAME), Wire/Layout.antt the packed bytes. An enumeration
--   that arrives over the wire is a number, since a sender may put any value there.
-- * The helpers of namespace tool, src/xchange.hpp. Tool/Fletcher.antt is fletcher16 (block loop,
--   `uint32_t` sums written out as `% 2 ^ 32`), Tool/Text.antt splitEncryptionWhitelist and
--   filename_from_path, Tool/Hex.antt the hexadecimal texts, Tool/Number.antt ip_from_str and the two
--   getPort of src/xcc.cpp and src/xcd.cpp.
-- * The socket loops of namespace sio, src/xchange.hpp. Sio.antt has write_to_socket and
--   read_from_socket over a kernel, which is a parameter: each call of `recv` or `write` may come
--   short, fail for a while or fail for good. Sio/Write, Sio/Read, Sio/Deliver and Sio/Accepting
--   have what the documentation of the system calls promises, as records of laws; Sio/Duplex and
--   Sio/Kept that the two directions of a socket leave each other alone, Sio/Dry its end.
-- * The ciphers, src/aes_gcm_handler.hpp, src/chacha20_handler.hpp and
--   src/xchacha20poly1305tls_handler.hpp: Crypto/Aes, Crypto/ChaCha, Crypto/XChaCha, and in
--   Crypto.antt what they share. Crypto/Handler.antt is Encryption and Decryption of
--   src/crypto_handler.hpp. Crypto++ is a parameter: AEADs that invert and authenticate, a key
--   derivation, a random source.
-- * ControlFrame and DataFrame of src/xcc.hpp: Frame.antt.
-- * SocketIO_Manager, src/socketIO_handler.hpp: SocketIo.antt has its state and the checks of a
--   frame, SocketIo/Io, SocketIo/Receive and SocketIo/Send the methods that use the socket.
-- * The programs. Client/Command.antt is parseArgs of src/xcc.cpp, Client/Program.antt its
--   setSecurityVersion and main with the exit codes; Server/Command.antt is parseArgs and
--   checkArgsPlausibility of src/xcd.cpp, Server/Program.antt its main up to mainLoop. What connect,
--   bind, listen and the file system answer is a parameter. A text is a list of byte codes
--   (Prelude/Text.antt).
-- * The server. Server/Admission.antt is the test of the control frame in src/xcd.hpp and the two
--   version tables; Server/Files.antt what recv_file asks of the file system; Server/Protocol.antt
--   recv_message, recv_filename and recv_file of src/xcd_protocol_handler.hpp; Server/Handler.antt
--   its ctrl_loop and the mainLoop of ConnectionManager; Server/Daemon.antt the accept loop and the
--   cleaning thread of src/xcd.cpp, as a relation of steps on the list of connections.
-- * The client, src/xcc_protocol_handler.hpp. Client/Source.antt is FileIO, Client/Protocol.antt
--   ReadMessage, sendMessage and sendFile, Client/Handler.antt the constructor and ctrl_loop. The
--   pauses of sendFile are left out there; Client/Throttle.antt has them, on a clock.
-- * Transfer.antt and its children put the client's sendFile against the server's recv_file. The loops
--   are followed over an interface, Transfer/Channel.antt: an end that sends frames and one that reads
--   them, which Transfer/Plain.antt and Transfer/Sealed/Ends.antt fill. Transfer/Session.antt and its
--   children have whole connections: the handler of the client against mainLoop of the server.
--   Transfer/Programs.antt starts both from their command lines.
-- * What the two state machines have done when they get to a state: Server/Handler/Order.antt, as a
--   relation of passes, and Client/Handler/Order.antt.
-- * Prelude.antt has the shared lists, tests and lemmas. Examples.antt has the tests, with a socket
--   in memory and a toy cipher for the parameters.
--
-- How the parts interact: the client's ctrl_loop builds a manager for its security version, sends a
-- control frame (with the iv behind it if it encrypts), waits for an ACK, sends the frames and waits
-- for a second ACK. ConnectionManager reads the control frame, tests it, looks a security version up
-- for it and starts the server's ctrl_loop, which reads iv and key file, sends the ACK, receives the
-- frames and sends the second ACK. Both use SocketIO_Manager for frames, and that the ciphers and
-- the socket loops.
--
-- State is passed explicitly. An action is a function from a state to an optional result and state
-- (Prelude/Action.antt); `none` is undefined behaviour: a call through a null pointer, an access out
-- of a buffer's bounds, or fuel that has run out.
--
-- Bounds and fuel: write_to_socket has 21 rounds, one more than its retries and resends allow.
-- read_from_socket has one for each byte, each unit of the retry counter and three for each transient
-- error that the kernel has still to report. The state machines have 7. The loop of sendFile has two
-- rounds more than the file has bytes; that of recv_file 2 ^ 32, where the frame counter ends it. The
-- sums of fletcher16 have as many rounds as bytes. Buffers are the bytes that the code has put there
-- over what they held before; `size_t`, `uint32_t` and `uint16_t` wrap where the code lets them.
--
-- Not modelled: src/help.hpp, the messages and log streams, progress output, the clock (what is
-- read of it is a parameter) and pauses other than those for the bandwidth, the signal handlers, the options of the sockets, the destructors that clear the keys. The file system
-- has regular files only, and Server/Protocol.antt has one transfer at a time: what two connections do
-- to each other is only modelled for the list of connections and its sockets. Of a run of both
-- programs the model has the two ends one after the other, on the bytes that each gets from the other.
pub mod Prelude
pub mod Wire
pub mod Tool
pub mod Sio
pub mod Crypto
pub mod Frame
pub mod SocketIo
pub mod Server
pub mod Client
pub mod Transfer
pub mod Examples
