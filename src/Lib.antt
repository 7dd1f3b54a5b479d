-- ===== src/Lib.antt =====
-- musketeer: the event-driven network core, as functions on explicit states, and what is true of it.
--
-- The program runs an epoll loop for each thread. An EventCycle owns the channels of its descriptors
-- and drives a poller; a Channel dispatches the events of one descriptor to callbacks; a TaskQueue
-- wakes the loop through an eventfd, a TimerQueue through a timerfd. Above these, a TcpConnection
-- reads into a Buffer and writes a chain of Buffers through the system calls of Utilities, and lives
-- in the pool of the TcpConnectionCreator that made it: a Listener, which accepts, or a Connector, which
-- connects. A NetWorker is a thread with one of each, and the Manager has one for each processor; the
-- Logger is a thread that writes the lines of all. What the program does with a connection is in the
-- callbacks of the Application: it answers each request with one response and closes.
--
-- Files, and the code that they model:
--   Prelude          helpers: tests, lists, integers, association lists, bits, and the outcomes of a
--                    call, which returns or ends in a fault (a failed assertion, an access out of
--                    bounds, a division by zero, an empty function, an abort,
--                    an object that is gone)
--   Errors           base/Utilities.h (ErrorType, Error) and ErrnoIgnorable of base/Utilities.cpp
--   Buffer           base/Buffer.h, base/Buffer.cpp: the storage of the vector with the bytes past its
--                    size, MarkProcessed, MarkAppended, Append, Retrive, Expand, Shrink
--   Utilities        WritevFd, WriteFd and ReadFd of base/Utilities.cpp
--   TaskQueue        base/TaskQueue.h, base/TaskQueue.cpp: SendTask and handleRead as steps of threads,
--                    and Init
--   Channel          event/Channel.h, event/Channel.cpp, the operations of event/EventCycle.cpp on
--                    channels, and event/poller/EpollPoller.cpp but for Poll
--   Polling          Loop of event/EventCycle.cpp, Poll and fillCurrentChannels of
--                    event/poller/EpollPoller.cpp
--   InetAddr         net/InetAddr.h, net/InetAddr.cpp; the constructors and ToString are in
--                    InetAddr/Texts
--   Socket           net/Socket.h, net/Socket.cpp
--   Pool             net/TcpConnectionCreator.h, net/TcpConnectionCreator.cpp; the factory is in
--                    TcpConnection/Making
--   Timers           base/Timer.h, base/Timer.cpp, base/TimerQueue.h, base/TimerQueue.cpp
--   TcpConnection    net/TcpConnection.h, net/TcpConnection.cpp
--   WeakCallback     base/WeakCallback.h
--   Connector        net/Connector.h, net/Connector.cpp
--   Listener         net/Listener.h, net/Listener.cpp
--   CycleThread      base/CycleThread.h, base/CycleThread.cpp, the constructor of event/EventCycle.h and
--                    the factory of event/Poller.cpp
--   Worker           ConnectUpstream of net/NetWorker.cpp, over TaskQueue and Connector; the
--                    constructor, CheckAndSet, StartThread and the destructor are in Worker/Making, over
--                    all members
--   Logger           base/Logger.h, base/Logger.cpp, and logFormat of base/Utilities.cpp, with the
--                    logger's thread, cycle and eventfd; handleRead of base/TaskQueue.cpp once more, in
--                    the logger's thread, where the lines that it logs are written at once
--   Manager          base/Manager.h, base/Manager.cpp, and main of musketeer.cpp
--   Application      onNewConnection, onNewRequest and onResponseSent of base/Utilities.cpp
-- A definition has the name of the code's function in lower case, MarkProcessed as mark_processed;
-- each file's comment says where it differs.
--
-- What the code calls is a parameter: the result of a system call, the growth of a vector, the times
-- of the clock, the walk of an unordered_map, what a callback does, and the eventfd (TaskQueue/EventFd
-- says what Linux documents of it). A vector stays below 2^63 bytes. Sizes wrap at 2^64 and counters
-- of buffers at 2^32; the counter of an eventfd stays below 2^64 - 1. The loop of TimerQueue's
-- handleRead may not end, and takes fuel; more fuel than there are entries is enough where no timer
-- that has run out is repeated. All other loops are over a list or a number.
--
-- Callbacks of the application are recorded and run after the handler, of which they are the last act;
-- Application runs up to three of them after an event, and the results count those that were run.
-- Events are sets of flags. Timers go by their index, where the code orders entries by address too.
--
-- Connector and Listener each have the cycle and the timers of their worker as parts of their own, since
-- what one of them does there is not in the other's way; Worker/Making passes on what each step makes of
-- them. A connection that is handed over takes a copy of them along, and of the pool: what it does later
-- is seen in that copy.
--
-- The loop of EventCycle has no end of its own: Polling runs it for a number of rounds. A
-- callback there may do anything to the channels in memory.
--
-- The bytes of a text are its codes in ASCII. The C library's conversions of addresses are parameters, of
-- which InetAddr/Texts says what is documented.
--
-- Not modelled: that a CycleThread's new thread runs the loop; the text of a line that is logged, and
-- the file; the lines that are logged outside Logger, but that Manager needs the logger's eventfd for them;
-- the threads' names; that main sleeps before it returns; the destructor of a channel whose last
-- reference goes while the loop holds it; and TcpServer and io/File, which declare and do nothing yet.
pub mod Prelude
pub mod Application
pub mod Buffer
pub mod Errors
pub mod Utilities
pub mod TaskQueue
pub mod Channel
pub mod CycleThread
pub mod InetAddr
pub mod Socket
pub mod Pool
pub mod Timers
pub mod TcpConnection
pub mod WeakCallback
pub mod Polling
pub mod Connector
pub mod Listener
pub mod Worker
pub mod Logger
pub mod Manager
