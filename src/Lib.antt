-- ===== src/Lib.antt =====
-- A chat server: clients register, log in, exchange messages and make friends over a TCP protocol.
--
-- The parts, and how they interact. MyTcpServer (src/MyTcpServer/src/MyTcpServer.cpp) accepts sockets,
-- reads a packet of a socket and gives it to DataHandleMachine (src/MyTcpServer/src/DataHandle.cpp), whose
-- handler casts the body to a message (src/Message), asks the data access objects (src/MysqlInteractor)
-- and UserConnectionManager (src/MyTcpServer/src/UserConnectionManager.cpp), and schedules the packets
-- that are sent in answer. The data access objects take their connections from MysqlConnectPool. main
-- (src/main.cpp) sets the configuration and runs a MyTcpServer. CommunicatorServer and ClientHandler
-- (src/CommunicatorServer, src/ClientHandler) are an older server over Qt, which main does not construct.
--
-- Which file models which part:
--   Base               shared names: texts as lists of bytes, integers, results with a fault for undefined
--                      behaviour and uncaught exceptions
--   Packet             struct TcpPacket with its array of 4096 bytes, its two serialisers, and the decoding
--                      part of handleClient
--   Decimal            std::to_string and std::stoull
--   Json               nlohmann::json as an interface
--   Message            MessageBase and the codes; Message/Person the two records of personal information;
--                      one module for each of the thirteen message classes
--   UserConnectionManager   the map from users to sockets, one function for each method
--   MysqlConnectPool   the pool, and MysqlConfig; Waiting below it the threads that share the pool
--   MysqlInteractor    BaseDao: the texts of the statements and their parameters; UsersDao and FriendShipDao
--                      below it; Lifetime from constructor to destructor; Connected the statements
--                      of an object that has a connection; Friendships what the
--                      friendship statements mean for the rows of a table
--   Environment        what the handlers meet: the libraries, the state, and the tasks
--   DataHandle         the seven handlers and handleData, with one child for each thing that is proved;
--                      Conversation packets that are handled one after the other
--   Server             MyTcpServer, with the READ events that addEvent sets; Server/Reader all steps of the
--                      server in any order
--   Threads            the handlers cut at each access to what the threads share: Program and its steps;
--                      Statements and Handlers the code; Machine all interleavings; Sequential and
--                      Undisturbed the way back to DataHandle; Ends how handlers come to an end
--   Main               run and main
--   ClientHandler      ClientHandler, with what it prints; Frames the format that it reads
--   CommunicatorServer CommunicatorServer, with the handlers that it makes
--   Tests              libraries and a database in memory, and the theorems at concrete inputs
--
-- How state is modelled. A handler takes the world (the connection manager, the database, the number of
-- codes that were generated, the tasks that were scheduled) and returns a new one, or a fault: a copy
-- outside an array, a null pointer that is dereferenced, or an exception that nobody catches. What a
-- constructor leaves unset is read from `Memory`; the time and random numbers are in `Stamp`.
--
-- Parameters. nlohmann::json (JsonLibrary, IsJsonLibrary), the byte array of the framework (ByteArray,
-- IsByteArray), `read` of its SocketStream (Read, IsRead), the MySQL connector (Connector, with
-- ChecksParameters and IsFriendTable for what the statements whose texts are written out there do),
-- QDataStream (DataStream, IsDataStream), EmailSender, and whether a socket is connected. Tests gives each
-- of them by concrete functions that satisfy what is assumed.
--
-- A fault is a result of its own. A step relation over the server or its threads goes on only from states
-- without one, so its theorems are about runs in which no fault has ended the process.
--
-- Bounds and fuel. Integers wrap where the source can reach it: the size of a packet is taken modulo
-- 2 ^ 32, and an id that getInt reads is extended from 32 bits. Printing a number takes as many rounds as
-- the number plus one, and each round divides by ten.
--
-- A thread of the pool takes the lock for one step at a time. The loop around `bind` has a bound on its rounds,
-- and any bound greater than the number of failures is enough.
--
-- How threads are modelled. In Server a task is one step. In Threads the steps of the handlers interleave:
-- one step is one call of UserConnectionManager, EmailSender or the scheduler, which lock, or one call of
-- the MySQL connector, which is taken to be atomic although the threads share a connection without a lock.
-- A fault of a handler ends the process, so no step comes after it. No bound on the number of threads is
-- used.
--
-- What is not modelled: the log of MyTcpServer and its handlers; how the framework closes a socket;
-- ZuesFramework, which is a submodule. The white space and the sign that std::stoull accepts are left out,
-- since the server only reads what it printed. The sockets and threads of Qt are modelled by the calls
-- that ClientHandler makes.
pub mod Base
pub mod Packet
pub mod Decimal
pub mod Json
pub mod Message
pub mod MysqlConnectPool
pub mod MysqlInteractor
pub mod Environment
pub mod DataHandle
pub mod UserConnectionManager
pub mod Server
pub mod Threads
pub mod ClientHandler
pub mod CommunicatorServer
pub mod Main
pub mod Tests
