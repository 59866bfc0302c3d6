-- ===== src/Lib.antt =====
-- Two parts of aemu, which lets the consoles of one network play together over the internet.
-- The first is the server of the adhoc control network (pspnet_adhocctl_server): consoles log
-- in over TCP, say which game they play, and join, scan and leave the groups of that game; the
-- server tells the players of a group of each other.
--
-- The second is the matching library that runs on each console (pspnet_adhoc_matching). It
-- finds the peers of one game and sends the packets between them; the server is not involved.
--
-- The server is one loop over linked lists of heap nodes (pspnet_adhocctl_server/main.c), the
-- operations on the nodes (pspnet_adhocctl_server/user.c) and a status page that is written
-- after every change (pspnet_adhocctl_server/status.c). The files stand for these parts:
--
-- - Base, Base/Tests, Base/Lists: numbers, tests and lists; a uint32_t counter goes up and down
--   modulo 2 ^ 32.
-- - Bytes: byte arrays and the C string functions that the code calls.
-- - Chain: the doubly linked lists of user.c, four of them written with the same statements. A
--   pointer field is a function from addresses; NULL is 0. Chain/Seg says which list of nodes
--   the pointers make; Chain/Link, Chain/Unlink and Chain/Find are about the statements that
--   change and search it.
-- - Packet, Packet/Opcode: pspnet_adhocctl_server/packets.h and pspstructs.h.
-- - Database: the structs of pspnet_adhocctl_server/user.h and the globals of user.c, as one
--   record with a store for each field of a node, and get_user_state. Sends, closes, frees,
--   rows added to the database and writes of the status page are a trace of events, oldest
--   first.
-- - Product: the product code check, game_product_relink and game_product_override.
-- - Session: login_user_stream, login_user_data, logout_user and clear_user_rxbuf. logout_user
--   and disconnect_user call each other; here logout_user calls leave_group, which is
--   disconnect_user for a user who is in a group, the only case that logout_user asks for.
-- - Group, Request: connect_user, disconnect_user, send_scan_results, spread_message,
--   free_database, get_num_group_players_with_same_ip and reconnect_players_with_ip.
-- - Server: server_loop of main.c. A run is a list of rounds: the connections that accept
--   returns, and for each user what recv, time, malloc and SQLite answer. The list ends when a
--   signal clears _status.
-- - Status: strcpyxml, get_game_id_list and update_status, whose page is a document of tags and
--   attributes.
-- - Invariant: when a state is well-formed, against a view that names the users, the games, the
--   groups of each game and the players of each group in the order of their lists. The pointers
--   make these lists; the counters are their lengths; a user's game and group pointers agree
--   with them; no game and no group is kept for nobody; there are at most 1024 users. Its child
--   modules show what each statement group does to it.
-- - Hangup: what an operation does to the sockets, and to the users' addresses, in any state,
--   and then over a whole run.
-- - Matching: the matching library of the console (pspnet_adhoc_matching/library): a game opens
--   a room as parent, joins one as child, or pairs up with one partner. The module itself has
--   the structs of structures.h and the system; Matching/Mode, Peer, Notice, Opcode and Error
--   have the constants of globals.h.
-- - Matching/Members: functions.c. A peer list is a list of nodes with their addresses, and a
--   write through a pointer changes the node with that address; a node that was freed is in no
--   list, and a write to it changes nothing.
-- - Matching/Packet, Matching/Send, Matching/Receive: the packets of calls/start.c, their
--   bytes, _send...Packet and _actOn...Packet.
-- - Matching/Threads: _matchingEventThread, _matchingInputThread,
--   timeout_missing_peers_on_adhocctl and _handleTimeout.
-- - Matching/Calls: init, create, delete, start, stop, term, select, cancel, send, abortsend,
--   sethello, gethello and getmembers of pspnet_adhoc_matching/library/calls.
-- - Matching/Roster, Matching/Siblings, Matching/Agreed: which peers a context may hold, what a
--   parent tells a child of the others, and what the child makes of it. Matching/Kicked: a
--   parent that kicks a child. Matching/Delivered: a join packet and the request that the game
--   is told of.
-- - Tests: concrete runs.
--
-- Nodes are addresses. malloc is a parameter of every operation that calls it: the address it
-- returns, where 0 is a failure. What is relied on is that an address it returns is that of no
-- live user, game or group. A freed node's fields stay in the stores; a well-formed state has
-- no freed node in a list.
--
-- Loops over lists run on fuel: the number of nodes that malloc ever gave, or one more. In a
-- well-formed state no list is longer than the number of these nodes, so the loops end at NULL
-- and not for want of fuel.
--
-- In the matching library the system is a value: what the next calls of malloc and
-- sceKernelGetSystemTimeWide answer, the console's MAC, and what was sent, told to the game and
-- closed so far. A datagram is its sender, its port and its bytes; a read behind them gives
-- nothing. The locks make each packet, each message, each check of the peer list and each call
-- of the game atomic, so a step is one of these, or a whole round of a thread. The loop of term
-- is given as many rounds as there are contexts.
--
-- SQLite is a parameter: whether each call succeeded, and the row that the statement returned.
-- The time is a number of seconds; a clock that goes backwards gives a difference of 0, which
-- is below the timeout, as the source's negative difference is.
--
-- Not modelled: printf; the socket set-up in main.c (main, interrupt, create_listen_socket,
-- change_blocking_mode, enable_address_reuse); usleep; that send may fail or send a part, since
-- its result is not read; the byte layout of the packets that are sent, and the bytes of a chat
-- packet behind its message's NUL, which the code does not write; reads behind a nickname
-- without a NUL on the status page, where the model stops at 128 bytes. Of the matching
-- library: the setting up of the threads, the waiting in stop, and the game's gp register. The
-- other modules of the console (pspnet_adhocctl, pspnet_adhoc, pspnet_miniupnc, atpro and the
-- smaller ones) and the copies of other projects have no model.
pub mod Base
pub mod Bytes
pub mod Chain
pub mod Packet
pub mod Database
pub mod Product
pub mod Group
pub mod Session
pub mod Request
pub mod Server
pub mod Status
pub mod Invariant
pub mod Hangup
pub mod Matching
pub mod Tests
