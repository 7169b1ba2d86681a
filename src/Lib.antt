-- ===== src/Lib.antt =====
-- A model of the UDT library of src/: reliable transfer of a stream or of messages over UDP.
-- The sender cuts data into packets, keeps the numbers of lost ones in a loss list and
-- schedules its sockets by time; the receiver stores packets in a buffer by their sequence
-- number, keeps the numbers it misses in a loss list, reports them, and acknowledges what it
-- has up to the first of them. A window of past ACKs gives the round trip time when the ACK of
-- an ACK comes back.
--
-- SeqNo: CSeqNo, CAckNo and CMsgNo of src/common.h, numbers that wrap. Every other part
-- compares and advances sequence numbers by them.
--
-- Packet: CPacket of src/packet.cpp, the four header words, `pack` for a control packet and the
-- methods that read them back.
--
-- HandShake: CHandShake of src/packet.cpp, the body of the packets that set up a connection.
--
-- AckWindow: CACKWindow of src/window.cpp, a circular history, with `store` at an ACK and
-- `acknowledge` at an ACK of it. Contents relates it to the list of the records it holds.
--
-- PktTimeWindow: CPktTimeWindow of src/window.cpp, the intervals between packets and between
-- the packets of a pair. Speed is about the filter by the median.
--
-- SndUList: CSndUList of src/queue.cpp, a heap of sockets with the place of each socket written
-- back into it. What CUDT::packData answers is an argument of `pop`.
--
-- UnitQueue: CUnitQueue of src/queue.cpp, the ring of arrays from which received packets take
-- their units.
--
-- Hash: CHash of src/queue.cpp, by which a receiving queue finds the socket that a packet is
-- for. Entries relates it to a stack of sockets for each number.
--
-- RcvBuffer: CRcvBuffer of src/buffer.cpp, units in a circular array: `add_data` from
-- CUDT::processData, `ack_data` from CUDT::sendCtrl, `read_buffer` from CUDT::recv and
-- `drop_msg` from CUDT::processCtrl. Stream relates it to the bytes that can be read. Message
-- is the mode that delivers messages, with the reading into a file; Scan is about the search
-- for a message and Deliver about its bytes.
--
-- SndBuffer: CSndBuffer of src/buffer.cpp, the data to send in a circle of blocks: `add_buffer`
-- from CUDT::send, `read_data` and `read_data_at` from CUDT::packData, `ack_data` from
-- CUDT::processCtrl. Add relates the circle to the list of its blocks, Cut to the bytes of a
-- message and Mark to the fields of a packet; File is the overload for a file.
--
-- Core: CUDT of src/core.cpp, first of all a connected socket over SndBuffer, SndLossList,
-- RcvBuffer, RcvLossList, AckWindow and PktTimeWindow. SendCtrl is sendCtrl; Receive is
-- processData, which the receiving queue calls with a data packet; Control, with Ack, is
-- processCtrl, called with a control packet; Send is packData, called by the sending queue;
-- Timers is checkTimers; Listen is listen, on a socket that waits for connections; and Connect
-- has open and the three functions connect, of the caller, of its wait for answers, and of the
-- called socket. Calls has send, recv, sendmsg, recvmsg and sendfile, the calls of an
-- application: Send and Receive are the functions, Limit, Room and Whole are about the limit of
-- the send buffer, Stream and Input about the bytes that go out and come in, Loss about a
-- message that recvmsg drops; File is sendfile, and Short is about a file that is too short.
-- Deliver, Gap, Window, Cookie, Agree, Waiting, Rendezvous, Sender, Stall, Resend and Silence
-- hold what is proved of them.
--
-- RcvUList: CRcvUList of src/queue.h and src/queue.cpp, the sockets whose timers a receiving
-- queue checks. Update compares its update with its other two operations.
--
-- Epoll: CEPoll of src/epoll.h and src/epoll.cpp, which tells an application which sockets are
-- ready. Ready follows a socket's report to the application; Wait is the loop of wait over its
-- rounds, which see what other calls have left; Reach has the methods as steps, and what holds
-- after any of them; Removed is about a socket that is taken away. Base.IntSet and Base.Dict
-- are std::set and std::map.
--
-- Address: CIPAddress of src/common.cpp, the addresses of sockets and the words that handshakes
-- carry of them.
--
-- LossList: what the two lists of src/list.cpp share. LossList.Chain relates the linked nodes
-- to a list of runs of sequence numbers, and LossList.Shift is about a node that loses its
-- first number.
--
-- RcvLossList: CRcvLossList of src/list.cpp, filled by CUDT::processData, with the loss report
-- that CUDT::sendCtrl sends in Query. Contents is the relation to a list of runs; First and
-- Shorten are about `remove` at the head of the list, Range about its overload for a range.
--
-- SndLossList: CSndLossList of src/list.cpp, with `get_lost_seq` for the next packet to send
-- again.
--
-- Base: lists with native indices, signed integers, indices round a circle and bits.
--
-- A field of the model has the name of the source's, without the prefix. A null pointer and the
-- -1 of a link or of an empty slot are `none`. A method that may read through one, or index an
-- array with -1, has an optional result. A word of 32 bits is its bit pattern, with the wrap
-- written out where the source computes with it; a count that the model keeps without the bound
-- of an int is named in the file that declares it. The answers of the clock and of the
-- allocator are arguments. In Core, what a socket does to the rest of the program (packets
-- sent, threads and epolls woken, its place in the schedule) is a list of events, and the
-- decisions of the congestion control are a function of the calls it has had.
--
-- A loop with a fuel argument gets it from the size of the array that it walks over: the heap's
-- count in SndUList, the buffer's size in RcvBuffer (one round more where the last test comes
-- after the last step), the list's size in the loss lists, the number of arrays in UnitQueue.
-- That is at least the number of its rounds in a state that the methods build.
--
-- Not modelled: locks and condition variables, which each method takes for itself, so that a
-- method is one step, but for the waits of connect, of CEPoll::wait and of the calls of an
-- application, which see what other threads leave; the system's sockets, clock and threads
-- (src/channel.cpp, CTimer and CGuard of src/common.cpp); MD5 (src/md5.cpp), which is another
-- project's; the sample programs (app/). Nor are these: close, the options, perfmon and
-- recvfile (src/core.cpp), CUDTUnited (src/api.cpp), CCC (src/ccc.cpp), CCache (src/cache.h),
-- and the other queues of src/queue.cpp.
pub mod Base
pub mod SeqNo
pub mod AckWindow
pub mod Packet
pub mod HandShake
pub mod SndUList
pub mod RcvBuffer
pub mod LossList
pub mod RcvLossList
pub mod SndLossList
pub mod UnitQueue
pub mod Hash
pub mod PktTimeWindow
pub mod SndBuffer
pub mod Core
pub mod RcvUList
pub mod Epoll
pub mod Address
