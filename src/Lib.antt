-- ===== src/Lib.antt =====
-- TinyMsg, a small chat system: clients (tm.c) that know each other by way of a tracker
-- (tmtracker.c) and send each other messages over TCP. Both stand on a peer table and socket
-- contexts (tmcommon.c), on nonblocking socket loops and a wire format (cnet.c), and on an arena
-- with the buffers and strings in it (clib.c).
--
-- Which file models what:
--   * Base: lists measured by native numbers, flat memory with ranges read and written, Boolean
--     tests, words and what they stand for, and the outcome of a C function: a result, or a
--     fault, which is a call of abort, a failed assert, an access outside the memory at hand, or
--     a script of outside events that ended.
--   * Clib/Arena: Arena of clib.c. Its block is a list of bytes, a pointer into it is an offset,
--     and ArenaAlloc hands out the block from pos on. Arena/Blocks has the invariant and the
--     blocks that the operations hand out, Arena/Reads is about ArenaGet.
--   * Clib/Buffer: Buffer of clib.c, with BufferNew, BufferClear, BufferAppend,
--     BufferAppendChar, BufferAppendByte and BufferShift. Buffer/Contents says which bytes a
--     buffer holds and what an operation leaves alone, Buffer/Grow is about the loop that
--     doubles, Buffer/Append and Buffer/Shift about the operations.
--   * Clib/Str: String of clib.c. Str/Held is about the operations that make strings, Str/Search
--     about StringSearch and StringEquals, Str/AllHeld and Str/CStr about strings side by side
--     and read as C strings.
--   * Cnet/HostAddr: addresses and ports in one number, of cnet.c.
--   * Cnet/Pack: NetPackV and NetPackLenV of cnet.c. Pack/Bytes describes the wire format as a
--     relation of a format, its arguments and the bytes; Pack/Packs, Pack/Appends and
--     Pack/Framed show that the code writes it.
--   * Cnet/Unpack: NetUnpack of cnet.c. Unpack/Reads and Unpack/Numbers have its steps,
--     Unpack/Spec what it means to read a message back, Unpack/RoundTrip that it does,
--     Unpack/Texts that its strings are C strings, and Unpack/Overread what becomes of a message
--     that lies about a length.
--   * Cnet/Stream: NetRecv, NetSend, NetSend2 and NetSend_wait_until_complete of cnet.c, over a
--     script of what the system calls answer. Stream/Receive, Stream/Send and Stream/Wait say
--     what they do, Stream/Watched which descriptors they add.
--   * Cnet/Connect: GetIPV4Address, OpenTcpSocket and OpenTcpConnectSocket of cnet.c, over a
--     script of what the system calls answer. Connect/Closes says which descriptors stay open.
--   * Clib/Array: Array of clib.c, whose items are values in place of bytes. Array/Items says
--     what the operations make of them.
--   * Clib/Map: Map of clib.c, its pairs as values. Map/Pairs and Map/Laws are about lists of
--     pairs with distinct keys and what MapSet and MapRemove make of them, Map/Set about MapSet
--     in the arena.
--   * Clib/Static: hash16, staticstr_copy and the comparison of C strings. Clib/Ctype: isalnum,
--     isspace and atoi of the C library.
--   * Tmcommon/Peers: the peer table of tmcommon.c. Peers/Table has the invariant and what
--     happens to a peer that is replaced, Peers/Added what happens to one that is added,
--     Peers/Create, Peers/First and Peers/Destroy are about create_peer and destroy_peer. A
--     handle of -1 is none.
--   * Tmcommon/Contexts: SocketCtx of tmcommon.c with SocketCtx_new and the lookups;
--     Contexts/Made is about a context that was just made, Contexts/Held about which descriptors
--     have one, Contexts/Grown about contexts that are written back and new ones behind them.
--   * Tmcommon/Sending: send_msg_to_hostaddr and send_msg_to_peers of tmcommon.c, with what
--     socket, connect and send answer as scripts and what goes out as a log. Sending/Queued and
--     Sending/Message say where the bytes of a message are after a call, Sending/Broadcast to
--     which addresses one goes that is for all peers, Sending/Grows what becomes of the
--     contexts.
--   * Tmcommon/Messages: the numbers and formats of the messages; Messages/Formats has the bytes
--     of the messages from the tracker, Messages/Composed is about a message in a new buffer.
--   * Client/Args: parse_args of tm.c; Args/Settings says which settings a command line has.
--   * Client/Messages: SendMsg and ConnectAndSendMsg of tm.c; Messages/Delivered says what goes
--     out.
--   * Client/Tokens: tokenize_command of tm.c. Tokens/Words describes the words of a line
--     without a tokenizer, Tokens/Step and Tokens/Tokenized show that the tokens are these
--     words.
--   * Client/Join: array_join_strings of tm.c.
--   * Client/Commands: execute_command of tm.c. Commands/Meaning says what the words of a line
--     ask for, Commands/Keywords is about the loop over the tokens, Commands/Chat about a text
--     to send, Commands/Local and Commands/Sends about whole lines.
--   * Client/Handling: handle_msg of tm.c. Handling/Online is about a PEER_ONLINE,
--     Handling/Trusted about messages that the tracker did not send.
--   * Client/Loop: the loop round select in THREAD_wait_for_tcp_messages of tm.c. Loop/Follows
--     says what a step does to the descriptors that are watched, Loop/Steps goes through the
--     steps, and Loop/Watched is about whole rounds and the whole loop.
--   * Tracker/Args: parse_args of tmtracker.c.
--   * Tracker/Handling: handle_msg of tmtracker.c. Handling/Told and Handling/Read are about the
--     messages that it writes and reads, Handling/Knocks the loop that tells a new peer of the
--     others, Handling/Handled and Handling/Leaving what becomes of a KNOCK and of a BYE,
--     Handling/Grows what any message does to the contexts.
--   * Tracker/Loop: the loop round select in THREAD_wait_for_tcp_messages of tmtracker.c.
--     Loop/Covered says which descriptors it watches and is about closing them, Loop/Steps and
--     Loop/Writes go through the steps of a round, and Loop/Served is about the whole loop.
--   * Tracker/Framing: the loop in THREAD_wait_for_tcp_messages of tmtracker.c that cuts the
--     bytes of a connection into messages, with handle_msg as a parameter. Framing/Splits
--     describes how bytes are to be cut, whatever pieces they come in, Framing/Reads shows that
--     the loop does it, and Framing/Keeps that it keeps what every message keeps.
--   * The modules called Tests: runs on concrete inputs.
--
-- Numbers are unbounded unless a wrap-around is written out: u32 is unsigned long, taken as 64
-- bits wide, u16 has 16. A C string is the list of its bytes before the zero. Fuel is used in
-- three places. The loop in BufferAppend has 64 rounds, which is enough since 63 doublings reach
-- every 64-bit capacity. The loop that cuts messages has one round more than there are bytes,
-- since each round but the last removes a byte. A round over the descriptors, of the tracker and
-- of a client, has one more than FD_SETSIZE, as descriptors in a set are below that. The loops
-- on sockets are recursive on the script of answers; where it ends first, the outcome is the
-- fault unfinished.
--
-- A local that the code leaves without a value where a message is too short is a parameter. A
-- pointer into the array of contexts that is used after the array has moved is a fault.
--
-- Not modelled: StringTrim and StringSplit, the text forms of addresses and of formatted strings
-- (inet_ntop, vsnprintf), the windows of the client and what it does there about an idle call,
-- the main functions, the test drivers t.c and t2.c, and the older versions under backup/.
pub mod Base
pub mod Clib
pub mod Client
pub mod Cnet
pub mod Tmcommon
pub mod Tracker
