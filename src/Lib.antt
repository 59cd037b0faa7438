-- ===== src/Lib.antt =====
-- Omega Online Core: a distributed object system. Each user runs a server process, and one root
-- process runs beside them; they exchange messages over local sockets, and each keeps its settings in
-- a registry, which is an SQLite database. This library models the parts that hold the servers
-- together, the routing of messages, the registry's store of keys and values and the user's table of
-- running objects, and of the runtime below them the dynamic values with their conversions, the texts
-- with arguments, the text form of GUIDs, and the comparison, searches and slices of strings.
--
-- Routing (src/OOServer/MessageConnection.cpp and .h; the rules of src/OOServer/RootManager.cpp)
--
-- A MessageHandler has a table of connections by channel id. An id is cut by masks into the number of
-- a node, the number of a child below it, and that of a compartment. The state is the record Handler
-- of Routing/Handler.antt, with what the handler does to the world outside (messages sent, queued or
-- passed on, managers told) as the list `log` of Action.
--   Routing/Handler   the data of the header, the constructor, set_channel, set_channel_id
--   Routing/Register  register_channel
--   Routing/Send      send_message, send_request, send_response, send_channel_close, channel_closed
--                     (close_channel here, as IoResult has a constructor of that name), on_closed
--   Routing/Receive   parse_message, forward_message, handle_message, queue_message,
--                     process_channel_close, classify_channel
--   Routing/Wait      process_request_context, wait_for_response, pump_requests, and the contexts of
--                     threads; Routing/Nested and Awaited have theorems
--   Routing/Connection
--                     recv and on_recv of a MessageConnection; Routing/Frames has the theorem
--   Routing/Threads   contexts, the pool, queued functions, shutdown_channels; Routing/Shutdown has the
--                     theorem
--   Routing/Root      MessageHandler::can_route and Root::Manager::can_route
--   Routing/Layout    the arithmetic of ids; Routing/Route, Reach, Request, Close and Setup have
--                     theorems
-- Parameters are the hash table of OOBase (Routing/Table, with the laws that are used of it) and, in
-- the record Env of Routing/Env, the virtual methods, the sockets, queues and CDR streams; an answer
-- of theirs may depend on all that the handler has done before. Numbers are native; where the code
-- computes on 32 bits, the reduction is written out. A shift is at most 31 bits.
--
-- The socket of a connection gives as many bytes as are asked for, and no error; what CDR reads
-- of them is the record Wire. Four loops run on fuel. register_channel looks for a free id within
-- next_channel_mask + 1 rounds, set_channel strips the zeros of the child mask within 32;
-- receive takes a round for each message, where one for each byte is plenty; and
-- shutdown_channels one for each channel and one more. All are shown to be enough.
--
-- A handler is one sequence of calls here: the locks are left out. Where a thread waits, in
-- Routing/Wait, what the others do meanwhile is any function on the handler, given with each pop
-- of a queue; a wait is a recursion on the list of these turns, and none says that they have
-- ended before it. What a manager does with a request, and the functions that are called by
-- address, are the record Manager. A thread has a context when it waits. In Routing/Request a
-- request that waits is the result `awaiting`. A shutdown and the calls of the thread pool are
-- actions of the log; that a handler is destroyed is not modelled.
--
-- Registry (src/OOServer/libdb/RegistryHive.cpp and .h, data/common.sql)
--
-- The state is the record Tables of Registry/Tables.antt: the rows of RegistryKeys and
-- RegistryValues, and the next id. The prepared statements and the trigger are functions on rows.
--   Registry/Hive     access_check, check_key_exists, and the operations on values
--   Registry/Find     get_key_info and find_key
--   Registry/Transaction  Transaction of src/OOServer/libdb/Database.cpp, with its destructor
--   Registry/Create   insert_key and create_key
--   Registry/Delete   delete_subkeys and delete_key
--   Registry/Enum     enum_subkeys and enum_values, into a set and into a response
--   Registry/Values, Stored, Ended, Atomic, Listed, Rows, Pruned, Protected, Removed, Finite, Ends,
--                     Sound, Located and Grown have lemmas and theorems
-- create_key and delete_key work on a Connection: the tables that its statements see and, within a
-- transaction, the tables to which ROLLBACK goes back. BEGIN keeps them, and fails within a
-- transaction; COMMIT and ROLLBACK end the transaction, and fail outside one. A Transaction whose
-- m_db is not NULL rolls back when it is destroyed.
-- Parameters are, in the record Env of Registry/Hive.antt, the manager's access check, whether each
-- step of a statement succeeds in SQLite, and the conversions between numbers and text; in
-- Registry/Enum, the order of the rows, and whether a name finds room in the set or the response. A
-- statement that fails is HIVE_ERRORED or HIVE_READONLY, as the code has it. Memory for strings is
-- always found. The name of the key that stopped delete_subkeys is left out. Ids and access masks are natural numbers: SQLite
-- gives positive ids.
--
-- The loops of find_key and create_key run on fuel, one more than the length of the path, and
-- delete_subkeys on fuel for the depth of the tree: as many levels as there are ids above the key's.
--
-- GUIDs (src/OOCore/Types.cpp, with the readers of numbers of src/OOCore/Formatting.cpp)
--
-- Guid.antt has the printing of a GUID, guid_t_from_string, and strtoul of the C library in base 16, for
-- longs of 64 bits: spaces, a sign and 0x included, as the reader does not exclude them everywhere.
-- Guid/Hex has the digits, and Guid/RoundTrip the theorem. A new GUID, which the operating system
-- draws, is left out.
--
-- Formatting (src/OOCore/Formatting.cpp, include/Omega/internal/types.inl)
--
-- A formatter_t is the record FormatState: the text in front and a list of insert_t, each of which waits
-- for the argument of its index or is filled.
--   Formatting/Decimal    printf's and strtol's decimal numbers, which are of 64 bits here
--   Formatting/Braces     find_brace, merge_braces, parse_arg
--   Formatting/Formatter  parse_format and the constructors, get_arg, set_arg, operator %, the cast
--   Formatting/Numbers    parse_numfmt, the fmt_ functions, fmt_recurse for the formats of one letter,
--                         OOCore_to_string_int_t and its kin; Numbers/Locale has the grouping, do_intl,
--                         do_intl_mon and undo_intl of the branch for POSIX, and Numbers/Prints exp_strip
--   Formatting/Parts      find_skip_quote, parse_custom, OOCore_to_string_bool_t
--   Decimal/Reads, Numbers/Read, Coerced and Grouped, Places, Merged, Cuts, Parsed, Options, Colon, Comma,
--   Argument, Rounds, Written, Copied, Waiting, Filled, Enough and
--   Two have lemmas and theorems
-- OOBase's Bag is a parameter, a list to which add appends. An argument is the function that its
-- ToString is of the format. What a new insert_t has in its memory is a parameter. The loops run
-- on fuel, find_brace, merge_braces, parse_format and the search past quotations a round for each
-- byte and one more, and the digits of a number a round for each and one more for the number
-- itself: each round shortens what is left. The grouping takes a round for each byte before the
-- decimal point and one more. printf for doubles and the search of a LocalString are
-- the record Env of Numbers/Locale, and localeconv gives a locale always. fmt_custom and
-- fmt_custom_i are left out, as is the branch for Windows.
--
-- Strings (src/OOCore/Types.cpp)
--
-- Strings.antt has compare, find1, find_not, rfind, left and right on lists of bytes; npos is none, and
-- the sharing of buffers is not seen. Strings/Within has find2, which runs on fuel, a round for each
-- byte of memory and one more; a read behind the terminator is its result `beyond`. Strings/Oneof has
-- find_oneof in the same way; find_notof is left out.
--
-- Running objects (src/OOServer/UserROT.cpp and .h)
--
-- The state is the record Rot of Rot/State.antt: the objects by cookie, the cookies by OID and the
-- listeners, with the calls of other objects as the list `log`.
--   Rot/Tables        what is asked of OOBase's HandleTable and Table, which are parameters
--   Rot/Notify        OnRegisterObject, OnRevokeObject, RegisterNotify, UnregisterNotify
--   Rot/Revoke, Register, Get
--                     RevokeObject_i and RevokeObject, RegisterObject, GetObject
--   Rot/Loop, Consistent, Revoked, Inserted, Kept, Gone, Taken, Found, Registered, Regained, RoundTrip,
--   Refused and Steps have lemmas and theorems
-- The record Env has the answers of other objects: whether one is alive, QueryInterface, the global
-- table with what it throws. An OID is the text that its cast yields; the lists of cookies to revoke
-- always find memory; a call that comes in while another is under way is not modelled, and so neither
-- is the lock. The loop of RevokeObject_i runs on fuel, the number of places of the OID at first.
--
-- Dynamic values (src/include/Omega/internal/any.h and any.inl, src/OOCore/Types.cpp)
--
-- Values/Int has integers and the integer types as numeric_limits describes them, Values/Convert the
-- specialisations of int_conv, Values/Coerce any_t with its conversions to integers and bool_t, and
-- Values/Equal its equality; Values/Exact and Same have theorems. Floating numbers, the readers of
-- numbers and the texts of values are parameters.
--
-- Not modelled: the object runtime of src/OOCore (formatting, marshalling, sessions),
-- the managers and their processes, the tools, the tests and the installers, OOBase, SQLite and MD5.
pub mod Formatting
pub mod Guid
pub mod Prelude
pub mod Registry
pub mod Rot
pub mod Routing
pub mod Strings
pub mod Tests
pub mod Values
