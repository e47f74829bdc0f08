-- ===== src/Lib.antt =====
-- A model of the remote monitoring tool: a client that measures the processes of its machine,
-- logs those above configured thresholds and sends the logs to a server, which keeps a log file
-- for each client and acks what it has. Paths are from the repository's root.
--
-- The parts, and the files that model them:
-- - Prelude, Result, Undefined, Text, Disk, Assoc, Samples: what the parts share. Undefined is
--   code that may read memory outside its buffer. Text is std::from_chars, std::getline,
--   decimal printing and operator>> into a uint64_t; Disk is the content of files, with which
--   paths can be written or renamed; Assoc is std::unordered_map as an association list, in the
--   map's order of iteration; Samples is data for the examples.
-- - Wire: src/common/serializable.hpp and serializable.cpp, the binary form of numbers, texts
--   and vectors (swap_endian, write_* and read_*). A stream is the bytes not yet read and a
--   flag.
-- - Socket: send_exact, recv_exact, send_message and recv_message of serializable.cpp, over a
--   connection whose calls move as many bytes as the operating system likes.
-- - LogEntry: src/common/log_entry.*, with both forms of an entry. Config:
--   src/common/config_entry.*, config.* and global.hpp, with the configuration file as it is
--   outside Windows. The JSON library is a record of its operations and of what is relied on:
--   what it dumps it parses back, and what it parses it can dump; Config/Sample is a value of
--   that record. Event: src/common/event.hpp, input_event.* and network_event.*. Util:
--   str_to_int and get_last_line_of_file of src/common/util.cpp. Backoff:
--   src/common/exponential_backoff.*. EventBus and InputHandler: src/common/event_bus.* and
--   input_handler.*.
-- - LogQueue: src/client/log_queue.*, the queue of unacked entries with its log file and ack
--   file; the constructor is `create`, the destructor `destroy`. LogQueue/Promise is what a
--   user of the queue relies on, without its files.
-- - ProcessTable: src/client/process_table.*, process_stat.hpp and process_listing.*: the
--   comparator, the grouping by name, and in ProcessTable/Update the function update_table as
--   it is outside Windows, with its other form in ProcessTable/Update/Windows. What the readers
--   of /proc, the packet counter and the arithmetic on doubles give is a record of readings.
-- - Proc: the readers of /proc in process_table.cpp, over the static buffer that they share.
--   NetworkProcessing: src/client/network_processing.*, the counting of captured frames by
--   libpcap, and of decoded events under Windows.
-- - ClientLogger: src/client/client_logger.*, which fills the queue from the process table and
--   takes the acks. Client: the payload that the loop of src/client/client.cpp publishes, in
--   Client/Configured the reception of a configuration, and in Client/Bus the subscribers
--   together and the receiving thread.
-- - ServerConnector: src/client/server_connector.*, the connection and the attempts to make it.
-- - ClientHandler: src/server/client_handler.*, the server's handling of a client's messages,
--   with the receiving thread in ClientHandler/Reception. ClientManager:
--   src/server/client_manager.*, the numbering of clients, the way of a message to a client's
--   socket, and in ClientManager/Input the lines of the user. Server: the subscribers of both
--   on the event bus.
-- - Arguments: the command lines of src/client/client.cpp and src/server/server.cpp.
-- - Configuring: a configuration from the line of the server's user to the client's logger and
--   its file.
-- - Protocol: client and server together, as a step relation. A step logs a value, sends a
--   batch, lets the server receive a message that was sent, or lets the client receive a reply
--   that was sent; messages are delivered in any order, any number of times or never.
--
-- Numbers are natural numbers with the wrap-around of their C++ type written out. The host is
-- little-endian. What uninitialised memory holds is a parameter named junk. Loops over a file
-- run on fuel: the loader of the log file has two rounds more than the file has bytes, and a
-- round takes a byte or meets the end. The loops of send_exact and recv_exact have as many
-- rounds as bytes, and a call that succeeds moves a byte at least. Each subscriber is a
-- function from an event to a new state and the event that it publishes last; the event bus
-- calls them one after the other, and a call of publish inside runs at once. The fuel of
-- publish is the depth of such calls, and what a deeper call would give is a parameter. The
-- loops over the fields of a line run on the number of fields, those over bytes on the buffer.
-- Publications of different threads are taken one after the other.
--
-- Not modelled: the Windows branches (decoding of events by the system's library, registry),
-- the set-up of the packet capture, parse_net_tcp, the display of the table and partial_sort,
-- the set-up of sockets and threads. They are calls of the operating system, or printing, or
-- take parts of the C++ library that are not modelled here.
pub mod Prelude
pub mod Result
pub mod Text
pub mod Util
pub mod Wire
pub mod LogEntry
pub mod Event
pub mod Disk
pub mod Config
pub mod LogQueue
pub mod Assoc
pub mod ProcessTable
pub mod Backoff
pub mod ClientLogger
pub mod Client
pub mod Protocol
pub mod Samples
pub mod Socket
pub mod ServerConnector
pub mod Arguments
pub mod Configuring
pub mod InputHandler
pub mod Server
pub mod EventBus
pub mod Proc
pub mod Undefined
pub mod NetworkProcessing
pub mod ClientManager
pub mod ClientHandler
