-- ===== src/Lib.antt =====
-- A model of the Photospider daemon: a process that keeps workflow documents in sessions, runs
-- them as jobs on a fixed set of workers, and answers one request per frame over a Unix socket.
--
-- A client encodes a request (src/lib/ipc/codec.cpp); the server reads its frame, decodes it and
-- hands it to the service (src/lib/orchestration/service.cpp), whose answer goes back encoded.
-- Jobs run on the service's workers, which compile a document and execute its plan by the kernel
-- package. That package is not part of the repository.
--
--   Base            shared tests, lists, words, bits and sorted maps
--   Kernel          `Status`, `ErrorCode` and the other enumerators of the kernel package: a record
--                   of numbers and their documented laws, which every definition takes
--   Protocol        include/photospider/ipc/protocol.hpp and the method codes of codec.hpp
--   Workflow        the kernel's `WorkflowDocument`
--   Execution       the kernel's results; `Values` is its interface to Values
--   Codec/          src/lib/ipc/codec.cpp, from the Encoder and the Decoder (Encoder, Decoder, Utf8)
--                   over documents, Values, diagnostics and statuses to whole messages (Request,
--                   Response, Correlation)
--   Codec/RoundTrip what it means that a decoder reads what an encoder writes, and how such pairs
--                   compose; the Agreement modules apply it to each message
--   Orchestration/  src/lib/orchestration/service.cpp: Job is a `JobRecord` and each critical
--                   section under its mutex, Worker is `execute`, Worker/Runs lets it interleave with
--                   clients and closing sessions; Registry is `JobRegistry` with its map and queue,
--                   Sessions the sessions of `Service::Impl`
--                   Service joins the two as `Service::Impl` with all its threads; Dispatch is
--                   `Service::dispatch` over an interface of the calls that it makes, which
--                   Service/Calls fills
--   Frame           src/lib/ipc/frame.cpp: frames over a stream; Frame/Framing reads a frame from a
--                   whole sequence of bytes, and Frame/RoundTrip joins the writer to the reader
--   Client          src/lib/ipc/client.cpp: `Client::Impl::call` and the nine procedures
--   Server          src/lib/server/server.cpp: the handler of a connection; Server/Exchange joins it
--                   to the client, Server/Accept is the accept loop with the handlers' threads,
--                   Server/Run is `Server::run` to its end, and Server/Interruption the inventory of
--                   connections between the handlers and `stop`
--   Socket          src/lib/ipc/unix_socket.cpp: paths, the guard of the socket's node, in
--                   Socket/Listening the creation of a listener, and in Socket/Descriptors the streams
--                   of clients and accepted peers
--   Daemon          apps/photospiderd/main.cpp: the command line, the configuration, the
--                   constructor of the server, the exit code, and the guard of the signal mask
--   Tests/          sample data, runs, and the theorems applied to them
--
-- An encoder is a function from the payload so far to a longer one or a `CodecFailure`; a decoder
-- takes the unread bytes and returns a value and the bytes behind it. A thrown exception is the
-- error value. Machine integers are natural numbers with their ranges as hypotheses (IsRequest,
-- IsResponse); signed integers and doubles are their 64-bit patterns, which `memcpy` carries;
-- subtraction that can wrap is written `sub64`. Loops run on a count or on the bytes left; the fuel
-- of `valid_utf8` is the length of the text, of which each round takes a byte at least.
--
-- A job is a record and the place of its worker in `execute`. What the compiler and the executor
-- return is an argument of a step, and between two steps any other thread may act. An exception
-- inside a critical section is modelled only where `finish_failure_safely` catches it.
--
-- The registry is the ids in its map and its queue, and a store of the records they point to; a
-- shared pointer is the number of its record's id. Registry/Reach runs it by the critical sections of
-- all threads, one at a time, in any order. Sessions/Steps runs creations and closes likewise, with
-- the number of creations in flight and the sessions whose close has begun; `std::terminate` is
-- `none`. The reservation of a creation that fails in its second section is rolled back in that
-- section, which the source does once the locks are released.
--
-- A stream is what the operating system makes of it: an `Input` holds the bytes to come and a list
-- of how each `recv` ends, an `Output` the bytes sent and a list of how each `send` ends, EINTR and
-- errors among them. The loops of `read_frame` have a round of fuel for each byte and each call to
-- come and one more, which is enough since every round takes a byte or a call; `none` is a loop
-- out of fuel. The handler of a connection takes a list of rounds, behind which another thread has
-- stopped the server. System calls on the file system are given by their answers; those that make a
-- stream are answered in turn by a script, and change a table of open descriptors with their
-- close-on-exec flags, where `none` is a call that is interrupted for ever. `Server::run` takes a list
-- of turns, behind which another thread has stopped the server.
-- The loop that drains signals has fuel for each signal that is pending or arrives, and one more.
-- `std::stoull` is given by a function with a law where a theorem needs one.
--
-- Not modelled: mutexes and condition variables (each critical section is one step), allocation
-- failures but in `dispatch`, in `finish_failure_safely`, and in a connection's handler behind the
-- reading of a frame, what a handler sends when its connection cannot be registered, the checks of
-- invalid descriptors, the listener's own descriptor, the roll back of a `JobRegistry`
-- whose worker cannot be started, and the thread that waits for stop signals.
pub mod Base
pub mod Kernel
pub mod Protocol
pub mod Workflow
pub mod Execution
pub mod Codec
pub mod Frame
pub mod Client
pub mod Orchestration
pub mod Server
pub mod Socket
pub mod Daemon
pub mod Tests
