-- ===== src/Lib.antt =====
-- Verification of go-icq, a server library for the OSCAR protocol of AIM and ICQ.
--
-- The program has two packages with logic of their own. Package wire turns messages into bytes and
-- back: a codec that goes by reflection over the message types, the FLAP frames that carry SNAC
-- messages on a connection, lists of TLVs, the rate limits and the roasting of passwords. Package
-- state keeps the users that are signed on: a session holds a queue of messages, rate limits and the
-- info that others are shown, and uses wire for all three; the session manager keeps one session for
-- each screen name and relays messages to them. It also normalises and checks screen names, tests
-- passwords, issues the cookies with which a client moves to another connection, in the form of the codec
-- of wire, and names chat rooms. The user store keeps users, buddy lists, privacy, offline messages and chat
-- rooms in a database, and answers who blocks whom by a query over all the lists.
--
-- The files and what they model:
-- - Prelude: names and lemmas that all share. Prelude/Lists and Prelude/Tests have lists and Boolean
--   tests on native numbers, Prelude/Int signed integers, Prelude/Machine Go's int32.
-- - Wire/Tag, Wire/Encode: wire/encode.go. parseOSCARTag is parse_oscar_tag; marshal, marshalStruct,
--   marshalSlice, marshalString and the others have functions of their names. Wire/Decode:
--   wire/decode.go, likewise. Wire/GoType has the types that reflection sees, with their values;
--   Wire/Bytes what encoding/binary does, Wire/Result and Wire/Reader errors, panics and the stream.
--   Wire/Messages has the message types of wire/tlv.go and wire/frames.go. Wire/RoundTrip and
--   Wire/Termination prove.
-- - Wire/Snacs: the structs of wire/snacs.go, in a file for each food group, a definition for each struct
--   with its name in lower case. Wire/Snacs/Codable tests a type, Wire/Snacs/Carried proves what the
--   test is good for, and Wire/Snacs/Checked applies it to all of them.
-- - Wire/MessageText: the functions and methods of wire/snacs.go.
-- - Wire/Flap: wire/frames.go. FlapClient is its state with the bytes still to be read and those that
--   are written; SendSNAC is send_snac, ReceiveFLAP receive_flap, and so on. The files below it prove.
-- - Wire/TlvList: wire/tlv.go, with its laws in Wire/TlvList/Laws.
-- - Wire/RateLimit: wire/rate_limit.go, with the table of SNACs in Wire/RateLimit/Table.
-- - Wire/Roast: the roasting of wire/user.go.
-- - State/Session: state/session.go. Setters, Relay (queue and end), Rates (rate limits and warnings,
--   with arrays in Rates/Arrays), Observe and Info are its parts; Valid has the invariant, with the
--   operations as steps in Valid/Steps. State/Float has the float32 arithmetic that it needs.
-- - State/Manager: InMemorySessionManager of state/session_manager.go. Its map is a list of entries;
--   AddSession, which waits in the middle, is the steps of Manager/Calls, and the relays stand in
--   Manager/Relays. Store, Keeps, Invariant, Directory and Relayed prove; Directory has the abstract
--   view, a map from names to sessions.
-- - State/Text: what state/user.go uses of packages strings, strconv and unicode, and of `range` over a
--   string. State/User: state/user.go and the hashes of wire/user.go; Info has the records, Name,
--   Password and Age the functions, and Identity, Handle and Checked prove.
-- - State/Cookie: state/cookie.go; Crack is crack and Issue issue. State/ChatRoom: state/chat.go.
-- - State/Sql: the statements of SQL that the store uses, as functions of lists of rows, with the
--   outer join in Sql/Join and the order of texts in Sql/Order. State/Store has the tables of buddy
--   lists; Store/BuddyLists the methods of SQLiteUserStore in state/user_store.go on them and on the
--   items of a user, which Store/Items describes as a list in order, with their laws in
--   Store/Feedbag; Store/Rooms has the methods on chat rooms, and Store/Keywords those
--   on keywords. State/Accounts has the table of users, with the methods on one user in
--   Accounts/Users, offline messages in Accounts/Inbox, and what is read after a change in
--   Accounts/Lookup.
-- - State/Relationship: the query of state/relationship.go and the methods AllRelationships and
--   Relationship. Relationship/Pair describes the relationship of two users with no query, Pair/Refines
--   proves that the query computes it, and Relationship/Effects what the methods on lists do to it.
-- - The modules called Tests run definitions and apply theorems at concrete inputs.
--
-- Choices:
-- - A value that Go can only reach by a panic, or never, is an outcome of its own: `panic` and `stuck`
--   of Result, `panics` and `blocks` of Outcome, `panicked` and `spinning` of CookieResult and
--   MessageText, or none of an Option that a comment explains.
-- - Loops that read go by fuel: the loop over a buffer has as much as the buffer has bytes, and the
--   loop to the end of the stream one more. A round that reads takes a byte, so fuel runs out only
--   where the program would go on for ever; Wire/Termination proves for which types it does not. The
--   rounding of float32 numbers goes by 64 halvings or doublings, more than a product of two numbers
--   of 24 bits needs.
-- - Unsigned integers are natural numbers with `% 2 ^ w` where the source converts; an int32 is an
--   integer with `int32` after each operation. A time is its distance from 1970 in nanoseconds.
-- - A method that holds a mutex throughout is one step. A channel is the list of what it holds; a send
--   that no room is left for blocks, or takes the default branch where the source has one.
-- - A writer does not fail, and a reader has the whole stream.
-- - A table is the list of its rows, in the order in which they were put in; a null is none, and the
--   database does not fail but where a constraint of the schema is broken. Keys and foreign keys are those
--   of the migrations. Where a query gives no order, SQLite visits the rows in that of the index that it
--   reads: the items of a user are kept in the order of their two numbers, and of the chat rooms of an
--   exchange the one whose name is first byte by byte is found first.
-- - What is not in the repository is a parameter: MD5, HMAC, random bytes, the time, and what package
--   unicode knows above Latin-1. What of the standard library is plain computation is written out.
--
-- Not modelled: the text of errors and log lines; the names in wire/snacs_string.go; of
-- state/user_store.go InterestList, EmailAddress, the searches by LIKE, profiles, buddy icons and the
-- migrations; the web API's stores; and, so far, the chat session manager and package config.

pub mod Prelude
pub mod State
pub mod Wire
