-- ===== src/Lib.antt =====
-- FastCGI servers: `cocgi`, on coroutines, and `mucgi`, on an event loop. Both receive the records
-- of the FastCGI protocol over a TCP connection, hand the request to a back end, and send its
-- answer back in records.
--
-- The codec of cocgi (cocgi/fastcgi.cpp, cocgi/fastcgi.h) is modelled in Cocgi and its children.
-- Cocgi.Header is the struct FcgiRecordHeader as it lies in memory, Cocgi.Kind the constants,
-- Cocgi.Params is readLen and parseAllParams, Cocgi.Codec is the class FastCgiCodec with
-- parseFcgiPackage, onBeginRequest, onParams and onStdin, Cocgi.Respond is respond, endStdout and
-- endRequest, Cocgi.Session is readData and doRequest, and Cocgi.Backend is
-- BackendProc::printRequest of cocgi/backend.cpp.
--
-- Cocgi.Stored is the same codec over buffers of its own, by the operations that it calls on them,
-- Cocgi.Stored.Respond and Cocgi.Stored.Session are its answers, readData and doRequest so:
-- ByteQueue is the interface that it asks for, and Buffer.AsQueue fills it with the class Buffer.
-- Cocgi.Codec.Pipelined has two requests in one buffer, Cocgi.Codec.Foreign records of unknown
-- types, Cocgi.Codec.Framing any records with a part of one behind them. Cocgi.Session.Forms puts
-- the library Cgicc in the place of the parameter, and Mucgi.Forms does so for mucgi, on the forms
-- of Cgicc.Forms.Carried.
--
-- Cocgi.Server and Cocgi.Process are cocgi/main.cpp. Cocgi.Process is main with CreateTcpSocket,
-- SetAddr and SetNonBlock, up to the parent's return or the event loop of a child; the calls that
-- change something are logged in their order. Cocgi.Server is one child: the tasks, the stack
-- g_readwrite on which idle tasks wait, and the coroutines accept_routine and readwrite_routine. A
-- coroutine runs undisturbed from one point where it waits to the next, so a step is such a
-- stretch, and a run is any sequence of steps, each with what its system calls return. The state
-- has two logs that the program does not keep, of the descriptors that co_accept returned and of
-- those that close was called on. What the back end does with a request is told by what it prints:
-- printRequest gives the pairs that its two loops print beside the page, doRequest and onRequest
-- hand them on, and they are the calls of the reply of readData and of a connection of mucgi.
-- Cocgi.Server.Alone says what a task would do for a connection if it were the only one, in polls
-- of its own; Cocgi.Server.Isolation compares a run with it, and Cocgi.Server.Exchange, Persistent,
-- Served and Finished have one request behind the other on a connection, and its end.
--
-- The codec of mucgi (mucgi/fastcgi.cpp, mucgi/fastcgi.h) is modelled apart in Mucgi.Params,
-- Mucgi.Codec and Mucgi.Respond. Mucgi.Session is onMessage of mucgi/fastcgi.h, onConnection and
-- onRequest of mucgi/main.cpp, Mucgi.Backend is mucgi/backend.cpp, and Mucgi.Setup the arguments of
-- main, up to its calls of muduo. Mucgi.Agreement compares its codec with that of cocgi.
-- Mucgi.Messages and Mucgi.Exchange have requests in parts and one behind the other.
--
-- Buffer is the class of cocgi/muduo_lib/Buffer.h and Buffer.cpp, a vector of bytes and two
-- indices. Buffer.Search and Buffer.Integers are its searches and the operations on 64-bit
-- integers. Buffer.Refinement relates it to a queue of bytes, and the codecs see a buffer so, as
-- the list of its readable bytes: append adds at the end, retrieve takes off the front.
--
-- Cgi is what the servers take from the CGI library, as a parameter. Cgicc models the library that
-- the tree has for it, cocgi/cgicc_lib: Cgicc.Url and Cgicc.Strings are functions of CgiUtils.cpp,
-- Cgicc.Forms is the constructor of the class in Cgicc.cpp and the functions that it calls,
-- Cgicc.Object the class as an object with its searches, copies and assignment, Cgicc.Entries the
-- values of FormEntry.cpp and the files of FormFile.cpp.
--
-- Endian holds the macros of cocgi/type.h. Protocol is the wire format, written down apart from the
-- code, against which the parser and the responses are stated; Protocol.Client is a web server that
-- reads an answer, Protocol.Stream one that reads several. Base has the helpers on lists, bytes and
-- maps. Tests runs the models and applies the theorems at concrete inputs.
--
-- A byte is a number below 256, a string a list of bytes, and a std::map an association list.
-- Fixed-width arithmetic is written out with its modulus. The host is little-endian, as the macros
-- hton16 and hton32 suppose.
--
-- The loops of parseAllParams, parseFcgiPackage and parseRequest take fuel, the number of bytes in
-- the stream; each round takes a byte or more, so it is enough. The loops of the CGI library take
-- the length of the string, or one more where the last round may find it empty; each other round
-- takes a separator off it.
--
-- What read, readv, write, accept, socket, bind, fcntl, fork and errno give comes in as arguments,
-- and so do inet_addr and atoi. The CGI library is a parameter of the servers, which may refuse an
-- input, as the library throws std::runtime_error; boost::to_lower_copy is one of mucgi. Not
-- modelled: the rest of the libraries in the tree (libco, muduo), which are other projects' code;
-- what the CGI library stores on streams and the cookies that it would send, which nothing in the
-- servers calls; and logging.
pub mod Base
pub mod Endian
pub mod Protocol
pub mod Cgi
pub mod Cgicc
pub mod ByteQueue
pub mod Buffer
pub mod Cocgi
pub mod Mucgi
pub mod Tests
