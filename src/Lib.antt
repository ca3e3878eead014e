-- ===== src/Lib.antt =====
-- pgx, the PostgreSQL driver and toolkit for Go: its wire protocol (pgproto3) with what that
-- stands on, the codecs of integers, ranges and arrays (pgtype), the substitution of arguments in SQL
-- (internal/sanitize), and transactions (tx.go).
--
-- The parts, and how they interact:
-- * internal/pgio/write.go (Pgio): the big-endian writers, with the conversions between Go's
--   signed and unsigned integers written out. Pgio/Laws has the readers.
-- * internal/iobufpool/iobufpool.go (Iobufpool/Classes): the size classes, Get and Put, over any
--   choice that sync.Pool makes. Iobufpool is the interface that the chunkReader takes as a
--   parameter: a pool whose Get gives a buffer of the length that is asked for, with any bytes in
--   it.
-- * pgproto3/chunkreader.go (Pgproto3/ChunkReader): the buffer that every message is read
--   through. The connection under it is a list of events, each the arrival of bytes or a failure;
--   io.ReadAtLeast is a loop over them. ChunkReader/Stream defines the stream behind a reader,
--   ChunkReader/Next and ChunkReader/Reads are about Next. ChunkReader/Source fills the interface
--   Pgproto3/Source, which is all that the two ends use of a reader.
-- * pgproto3/*.go, a file for each message (Pgproto3, a module for each message): a record for
--   the struct, decode for Decode and encode for Encode. A []byte and a string are a List of
--   bytes, a nil slice of an optional value is none, and a map is an association list in an order
--   that stands for the order of Go's iteration. Pgproto3/Read has the reading steps that the
--   Decode methods share (a bounds check and a read), and Pgproto3/Message the frame that
--   beginMessage and finishMessage write. body, in each module, says independently what a message
--   looks like on the wire.
-- * pgproto3/frontend.go and pgproto3/backend.go: Pgproto3/Endpoint has the state of both ends,
--   the header that both read and the buffer that both write (Endpoint/Send), Pgproto3/Frontend
--   and Pgproto3/Backend each end's Receive, Backend/Startup ReceiveStartupMessage.
--   Pgproto3/FrontendMessage and Pgproto3/BackendMessage are the sums of the messages with the
--   switch that picks a decoder. An io.Writer is an interface, a parameter of Flush.
-- * internal/sanitize/sanitize.go (Sanitize): the simple protocol's way of putting arguments into
--   SQL text. Sanitize/Lexer has the state functions as a mode and a step, the text read so far as
--   what is pending, Sanitize/Quote the literals, Sanitize/Query the substitution. The server's
--   scanner, which reads the literals, is a parameter with the rules of PostgreSQL that the
--   quoting relies on as its laws (Sanitize/Quote/Reader). Sanitize/Runes is
--   utf8.DecodeRuneInString. Floats and times are written by functions that are parameters.
-- * pgtype/int.go (Pgtype): the codecs of int2, int4 and int8. pgtype/int.go.erb makes the Go
--   file from one template for the three sizes; Pgtype/Int has the template's parts, with the size
--   as an argument, and Pgtype/Int/Int2, Int4 and Int8 the functions it makes. Pgtype/Integers has
--   Go's conversions between the integer types, and the parts of strconv and encoding/binary that
--   are used; int and uint have 64 bits. Pgtype/Plan has what a plan takes and gives: the target of
--   a scan is its type, the value it stores the plan's result.
-- * pgtype/range.go and range_codec.go (Pgtype/Range), pgtype/array.go and array_codec.go
--   (Pgtype/Array): ranges and arrays in the binary format. The plans of the elements are
--   parameters: an encode plan is a function of the value and the buffer, and what an element is
--   scanned from is the result of a decoder. Pgtype/Sizes is the length that both write in front
--   of an element.
-- * tx.go (Tx): a transaction and the savepoints of its nested transactions. The connection is a
--   parameter: any function from what is sent to a reply. A nested transaction (Tx/Simulated) is
--   held by an address and stands in a list with the real one; the numbers of savepoints are int64.
--   Tx/Func is beginFuncExec. Tx/Laws, Tx/Counts, Tx/Savepoints and Tx/Func/Laws are about the calls
--   of their methods.
-- * Pgproto3/Session has the lists of messages that one end sends and the other receives.
-- * Pgproto3/Tests has the runs on concrete messages.
--
-- Bounds and fuel: the loops of ErrorResponse.Decode, StartupMessage.Decode and
-- AuthenticationSASL.Decode run on as much fuel as the body has bytes; each round takes one byte
-- at least, so that is enough. The loop of the lexer of internal/sanitize runs on twice as many
-- rounds as the text has bytes, and one. Integers are natural numbers or the integers of Common/Int with
-- their width's wrap-around written out; a length over maxMessageBodyLen is refused as in the
-- source. A maxBodyLen of 0 stands for all that set no limit.
--
-- Not modelled: the tracer; the JSON forms of the messages; the capacities of slices, and that a
-- message's slices share the reader's buffer until the next call of Receive. The texts of errors
-- made by fmt.Errorf are kept without their arguments. Of pgtype, the codecs other than the
-- integers', ranges and arrays in the text format, and the Map that finds a codec; of the driver's
-- own interface all but the transactions; pgconn, pgxpool, stdlib, the statement caches and the
-- packages for logging are not modelled.
pub mod Common
pub mod Pgio
pub mod Iobufpool
pub mod Pgproto3
pub mod Sanitize
pub mod Pgtype
pub mod Tx
