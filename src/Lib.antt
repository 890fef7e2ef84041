-- ===== src/Lib.antt =====
-- plib: the node of a small cluster that is to elect a leader. Each node listens for TCP
-- connections and datagrams in an epoll loop, decodes vote requests and responses, queues a
-- response for each request and sends the queues when their sockets take output.
--
-- The parts, and where they are modelled:
--   Base          shared helpers: lists, Boolean tests, machine words, the result type Run
--   Memory        blocks of bytes from malloc; memcpy is a load and a store that are undefined
--                 outside a block (Little: the bytes of an integer)
--   System        the kernel, the network and the other threads, as functions of the log of calls
--   StdMap        std::map<int, V>, with find and an insert that does not overwrite
--   Packet        DataProtocalSerializer.h: compressDataPacket, deCompressDataPacket
--   Vote          RequestVoteCommand.h: the packed structs and their four copy functions
--   SharedQueue   SharedQueue.h, the queue of responses
--   FdUtils       FdUtils.h: set_fd_nonblock, rm_fd_nonblock, random_between, current_time_nano,
--                 upd_election_time_nano, current_time_utc in its child Time (Format: its
--                 text), and the functions that print in its child Messages
--                 (set_resource_limit is in Starter)
--   StateLocalData  StateLocalData.h and the class of SegmentLog.h
--   ClusterConfig ClusterConfigTemp.h: loadClusterConfig
--   ElectionLogic ElectionLogic.h and ElectionLogic.cpp: getTerm and the empty methods
--   AppendEntryLogic AppendEntryLogic.h and AppendEntryLogic.cpp: the members and the constructor;
--                 the structs of InstallSnapshot.h
--   TcpClient     ProtocalClientTCP.h and ProtocalClientTCP.cpp: constructor, doConnect,
--                 closeConnSocket, handle, destructor
--   EpollServer   ProtocalServerEpoll.h and ProtocalServerEpoll.cpp, by its children:
--     State       the members, and the monad of the methods
--     Registry    rmBadFd, registerClient, addClientEpollEvent, modClientEpollEvent,
--                 closeEpollServer, regEpollResponse, putRespInQueue; sequences of the
--                 last are compared in a quotient of resp_message_map
--     Accept      the parts of initService for the listening socket and the udp socket
--     Read        its EPOLLIN part        Write       its EPOLLOUT part
--     Service     its loop                Setup       the constructor
--     Teardown    the destructor          Lifetime    the sockets up to it
--     Answers     from a vote request to the bytes of its response
--     Exchange    these bytes at the node that asked
--     Reuse       a descriptor that is closed and given to the next connection
--     Delivery    the queues and what is sent from them, against outboxes of lists
--     Safety      properties that the whole loop keeps, from rules for each part
--     Total       the fuel of the loops, and the end of the service
--   SelectServer  ProtocalServerSelect.h and ProtocalServerSelect.cpp, the server that waits with
--                 select: constructor, set-up, rounds, setnonblocking, rmBadFd, destructor
--   AppendLog     AppendLogCommand.h, with the structs LogEntry and LogEntries of SegmentLog.h, and
--                 its functions compressLogEntries and decompressLogEntries in the child Segment
--   UdpClient     ProtocalClientUDP.h and ProtocalClientUDP.cpp: its tries to send a message
--   Starter       AppLoopStarter.h and AppLoopStarter.cpp: the constructor, initialize and main with
--                 the server thread; the business loop and the destructor in the child Teardown;
--                 that all clients are registered in Registered
--   Draft         the prototypes in draft/, by its children:
--     Structs, Compress, Wire, Load, RoundTrip, Sent
--                 structure_fixed_size.h, compress_recursive.cpp, load_by_binary.cpp
--     HexText, Sample  SampleTest.cpp
--     EchoServer  ProtocalServerUDP.h and ProtocalServerUDP.cpp, with the second version in
--                 draft/20200214UPD in its child Update
--     EchoClient  ProtocalClientUDP.h and ProtocalClientUDP.cpp
--     Conversation  the echo client with the echo server
--     Datagram    udp_client.cpp and udp_server.cpp
--   Tests         the theorems on concrete inputs
--
-- State and control. A method is a function from the record Server to a Run: `ok` with the next
-- state, `undefined` for undefined behaviour (an access outside an object), `exits` for exit(),
-- `spins` when the fuel of a loop is used up. Every system call is recorded in the log of the
-- state, newest first, and its answer is a function of that log that the record Os holds: a
-- theorem for every Os covers every behaviour of the kernel and of the peers. The content of
-- fresh memory comes from Os.junk. An int is its 32-bit pattern; sizes are 64-bit and wrap. The
-- pointers of clientmap are indices of tcp_clients, so a client's connfd can change while it is
-- registered; the queue that an entry of resp_message_map points to is the entry's value, since
-- nothing else points to it.
--
-- Fuel. The accept loop, the read loop, the write loop, the loop over a queue and the destructor's
-- loop take fuel; the theorems under Total say how much is enough, for an event and for rounds of
-- the service. The event loop itself is watched for a number of rounds, and `false` says that it
-- still runs then; so is the loop of the select server, where `true` says that. The loops of the
-- prototypes and of AppLoopStarter::run have no end, so they are watched for rounds and then spin.
--
-- The prototypes. A pointer is its address, and a struct its bytes with the padding. initService of
-- the echo server takes events[i] with a variable i that has no value: C++ leaves that undefined,
-- and the model takes any value of i as an argument. The second version of the echo server has the
-- first one's handlers, which are modelled once.
--
-- The behaviour of a function with a result that flows off its end, as closeConnSocket does, is
-- undefined, as the standard has it: the set-up of a node is undefined where one of its clients
-- cannot be connected. The EPOLLIN part takes the election logic's handler of responses, which is
-- empty, as an argument, so that a theorem can say what it is handed. A call that prints is taken to
-- leave errno as it is.
--
-- Not modelled: what is printed, except in FdUtils (printf with %s of recvbuffer reads to the first zero byte),
-- addresses and host names beyond whether they are found, the mutex of SharedQueue beyond its
-- initialisation (only size() takes it, and one thread uses the queues), and the
-- threads beyond the flag keep_running, which another thread may clear before each test of it.
-- main.cpp, which prints two lines, is not modelled.
pub mod AppendEntryLogic
pub mod AppendLog
pub mod Base
pub mod ClusterConfig
pub mod Draft
pub mod ElectionLogic
pub mod EpollServer
pub mod FdUtils
pub mod Memory
pub mod Packet
pub mod SelectServer
pub mod SharedQueue
pub mod Starter
pub mod StateLocalData
pub mod StdMap
pub mod System
pub mod TcpClient
pub mod Tests
pub mod UdpClient
pub mod Vote
