-- ===== src/Lib.antt =====
-- UFT transfers files over UDT: a session compares a file with its peer's chunk by chunk and sends
-- what differs, or sends the whole file. The development models the C++ code under UFT/ and
-- UFT.DotNET/.
--
-- Parts and files. BitConverter is UFT/BitConverter.hpp: words, their bytes in memory and byte
-- order. ByteBuffer is UFT/ByteBuffer.hpp: a vector with a read and a write offset; a read or a
-- write answers that it was refused, that it left the vector, or what it gives. World holds what
-- the two classes below work on, and the API of UDT, zlib and the operating system as the records
-- Udt, Zlib and Os. Files has the files as a map from paths to bytes, and std::fstream as a path, a
-- position and good(). Socket is UFT/UFTSocket.cpp with a function for each method, Socket/Transfer
-- the loops SendAll, ReceiveAll and TryReceiveAll of UFT/UFTSocket.hpp. Session is UFT/UFTSession.hpp:
-- Session/Packet has the packets and ReadNextPacket, Session/Chunk one chunk, one hash and zlib's
-- calls, Session/Sender and Session/Receiver the routines SendFileChunks and ReceiveFileChunks,
-- Session/Info GetFileInfo and GetFilesInPath, Session/Listing the file lists, Session/Transmit
-- TransmitFile, TransmitFile2, HandlePacket, OnUpdate and the public methods. Client is
-- UFT/UFTClient.hpp, Listener is UFT/UFTListener.hpp, CmdLineArgs is UFT/CmdLineArgs.hpp. The
-- two mains are Programs/UftClient for UFT/uft_client.cpp and Programs/UftServer for
-- UFT/uft_server.cpp, and Programs is what they share. DotNet has the managed classes of
-- UFT.DotNET/main.cpp.
--
-- How they interact. A program is a function from a World to an Outcome (Prelude/Monad): it ends
-- with a value, with an error code of UFTSESSION_ERROR_CODES, with undefined behaviour, a failed
-- assertion or an exception that nobody catches (crash), or not within its fuel (stuck). A session
-- calls the socket, which calls Udt on the state U of the library; both sides of a transfer are
-- such programs, and a connection that stays up is the record Link (Socket/Delivery): two queues of
-- bytes, where a send of less than 2 ^ 31 bytes takes a first part of them and a receive of a size
-- below 2 ^ 31 gives a first part of what has come, or either is told to wait, finitely often; what
-- is beyond has a length that is not positive as an int32, which is how Send and Receive hand it to
-- UDT. Healthy (Session/Exchange) is what the chunks rely on: deflate's result fits the buffer of
-- twice the chunk's size, inflate undoes it, the chunk's size is at most 2 ^ 28, and the disk takes
-- every write. Session/Plan says what the two sides say to each other, and what the receiver's file
-- becomes; the files Session/Sending to Session/Synchronize are about the routines against it. The
-- words that a side hears stand in its queue from the start: when they come is left to the waits of
-- Link. Whole transfers: Session/Offer is the packet with which a side offers its file, and the
-- record Stats, that stat64 tells the truth of a file; Session/Meeting, Session/Opening,
-- Session/Ends and Session/Copy put TransmitFile, HandlePacket and the chunks together,
-- Session/Public and Session/Serving the public methods with their lock and the loop of OnUpdate,
-- where the record Idles (Socket/Polling) says what a receive answers when nothing has come.
-- Session/Service is the contract of two sessions without packets: two stores of files, and
-- requests that copy a file from one to the other; the files under Session/Service are about
-- SendFile, ReceiveFile and Update against it. Session/Lists has the file lists on the wire,
-- against Update and against a directory. Socket/Breaking has the loops of the socket over the
-- record Brittle, a connection that may end or fail at any call. Session/Conduct goes through the
-- session's routines once, by the rules of Prelude/Keeps for what programs do to the state: the
-- record Conduct asks of a property of the state that SendAll, ReadNextPacket and Disconnect
-- respect it. It is filled twice. Session/Soundness is about the socket's flags and references
-- whatever the peer, the library and the disk do, and Programs/Exits and Programs/ServerExits take
-- it to the exit codes of the two mains. Session/Termination is about a library that has only so
-- much left to give (Exhaustible).
--
-- Bounds and fuel. FILE_CHUNK_SIZE is the parameter chunk_size, so that examples can use a small
-- one; file_chunk_size is the source's. A loop over chunks has env.fuel rounds, and the length of
-- the file is enough; a loop of the socket has env.fuel calls, and the bytes of the largest packet
-- with the waits of the connection are enough (Enough; OfferFits for the packet of an offer, and
-- ListRoom for that of a list). OnUpdate has env.fuel rounds, one more than the packets that start
-- a transfer is enough. Whatever comes in, env.fuel is enough in Session/Termination where it
-- exceeds what the library has left by 2 ^ 32, the bound of a packet. Sizes and offsets are 64-bit,
-- what is given to UDT and zlib 32-bit, with their wrap-around written out; the theorems on files
-- ask for less than 2 ^ 63 bytes, since a streampos is signed, and a payload of that size is beyond
-- max_size, so that its vector throws; memory does not run out for smaller ones.
--
-- Not modelled. UDT, zlib and the file system are parameters, as are strtoul, inet_pton and ntohl
-- of the C library. The vector for compressed bytes is left out but for its size. The mutex is a
-- flag, since one thread is followed; the two sides of a connection are followed one at a time, each
-- over what it hears. What the programs print and the Windows branches are left out, and of the
-- managed wrapper the conversion of strings and the detours that call the delegates. Examples has a
-- small library, disk and connection on which the theorems are applied.
pub mod Prelude
pub mod BitConverter
pub mod ByteBuffer
pub mod Files
pub mod World
pub mod Socket
pub mod Session
pub mod Programs
pub mod DotNet
pub mod CmdLineArgs
pub mod Client
pub mod Listener
pub mod Examples
