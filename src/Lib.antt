-- ===== src/Lib.antt =====
-- A verification of the backend of HTSS Club: its wallet, the escrow of stakes, the lobby of the
-- games, the card game, the board game Caro, the rules of Bomberman, levels and ranks,
-- friendships, and servers with their roles.
--
-- Every operation that moves coins goes through the wallet (src/wallet). The games take stakes
-- and pay pots through the wager service (src/games/common/wager.service.ts), which calls the
-- wallet. The card game (src/games/tienlen) is a pure part, the rules of the cards, and a game
-- document that its service changes.
--
-- Which file models which part:
-- - Common/Action: request handlers. A handler reads and writes a state and returns or throws
--   (the exceptions of NestJS, with a reason for the message); what it wrote before a throw
--   stays, except in a transaction (src/database/transaction.util.ts), which undoes it. Rules to
--   prove that a handler keeps an invariant, and that one that throws has changed nothing.
-- - Common/Enums: src/common/enums.ts.
-- - Wallet: src/wallet/wallet.service.ts. The state Bank holds the collections users and
--   transactions, and the emitted events. findOneAndUpdate is a search for the first document
--   that passes the filter. credit and debit with the session of a caller are their own
--   definitions (credit_in_session, debit_in_session). Wallet/Requests serves a list of requests
--   one after another, Wallet/Ledger and Wallet/Outcomes hold the proofs.
-- - Wager: src/games/common/wager.service.ts.
-- - Rooms: src/games/common/rooms.service.ts and schemas/game-room.schema.ts. The state Lobby
--   holds the bank, the rooms and the next identifier. join, leave and cancel are cut where they
--   have read the room (join_room, leave_room). Rooms/Store is the collection of rooms and its
--   queries; Held says what the open rooms hold, Members what happens to stakes and seats,
--   Escrow, Joining and Leaving follow the coins through one handler, History through every
--   sequence of them, and Races through two leaves at once. markInProgress and close are
--   modelled and not among the requests of History: the game calls them, after the start and
--   after it has paid the pot.
-- - TienLen/Cards: src/games/tienlen/tienlen.logic.ts, with its theorems in Combos (what a
--   combination is), Beats (what beats what) and Hands (removeCards and the price of twos).
-- - TienLen/Game: the game document (src/games/tienlen/schemas/tienlen-game.schema.ts) and the
--   mechanics of a trick (src/games/tienlen/tienlen.service.ts), with Turns and Standing.
-- - TienLen/Table, TienLen/Service: the rest of tienlen.service.ts. The state Table is one match
--   with the lobby and its bank, the rank points, whether the timer of the turn runs and whose
--   grace timer runs; a timer that fires is a handler. Table ends a match (finish), by the
--   scores of Table/Scores; Service has play, pass, resign and the others. A ratio of the
--   configuration is a fraction, and Math.round is exact on it. Numbers, Progress, Ending and
--   Handlers follow the turn through every handler.
-- - Caro: src/games/caro/caro.logic.ts, with the lines in Marks and Lines, the stones in Turns.
--   Caro/Elo: elo.util.ts. Caro/Match: caro.service.ts and schemas/caro-game.schema.ts, over the
--   state Match: the document, the lobby with the bank, the users' points (the Hall of
--   Leveling), whether the timer of the turn runs and whose grace timer runs. Sound says what is
--   kept, Coins and History follow every handler, Progress shows that a player can move, Ended
--   and Points what the end of a match does. eloDelta takes a power in floating point numbers
--   and is a parameter.
-- - Leveling/Levels: src/leveling/level.util.ts. Leveling/Ranks: rank.util.ts. Leveling/Service:
--   leveling.service.ts, over the state Hall: the users' fields that levels and ranks concern,
--   what is emitted, the stored notifications and the members of servers. Board is the
--   leaderboard and myRank, Sync what the updates keep and announce.
-- - Friends: src/friends/friends.service.ts and schemas/friend.schema.ts. The state Book is the
--   collection friends, the ids of the known users, what is sent, and the next identifier. Docs
--   says what the queries find after the updates; Expected is the abstract relation between
--   users, Parting and Asking follow the handlers, Relation joins them, Listed is listFriends,
--   Races two requests at once.
-- - Matchmaking: src/games/caro/caro-matchmaking.service.ts. The sorted set and the hash of Redis
--   are lists, the Lua script is one step; Unique and Nearest are about
--   tryMatch. Matchmaking/Tables: the queues by
--   table size of src/games/tienlen/tienlen-matchmaking.service.ts, and joining one through
--   tienlen.gateway.ts.
-- - Servers: src/servers. The state Registry holds the collections servers, server_members and
--   server_bans, the default server and the events. Life and Admin are the operations, Requests
--   those that a client asks for; Changes is the abstract step relation, which Served shows that
--   every request follows, and Owners, Shield, Barred and Roles follow the steps: who owns a
--   server, whom a role protects, bans, the change of a role. Rows and Sound serve them; Invites
--   is about invite codes, Default about the start, Listing about what clients read.
-- - Bomberman: src/games/bomberman/bomberman.logic.ts. A player has the tile that rounding gives
--   for the position, the speed is in tenths of a tile, Math.random is a parameter, and a place
--   off the map is a wall. detonate calls itself on fuel, one more than there are bombs; Run is
--   the state of an explosion and is marked where the fuel would run out. Tick is tickWorld and
--   the standing; Chains says what an explosion keeps, Fuel that it ends, Walls what it does to
--   the map, Armed and Allowance count the bombs of a player, Games takes the steps of a game,
--   Aftermath is about one tick, Ordered and Places about the standing. Maps has the maps and
--   createState, whose loops over a layout are one pass, Spawns says what the corners hold,
--   Deaths how the order of the deaths grows, and Starts follows the games from there on.
-- - Challenges: src/games/common/challenge.service.ts. A key of Redis has the time at which it
--   is gone; the identifier and the clock are arguments.
--
-- Numbers: a card, a seat and an identifier is a natural number; coins are integers, since a
-- balance could become negative if a guard were missing. The source has JavaScript numbers,
-- which are exact on the integers in use. Loops over an index run on the number of rounds left,
-- from the length of the list, as the for loops of the source do.
--
-- Not modelled: the start of a match of the card game (createGame, the shuffle, hands that win
-- at once); the movement in fractions of a tile, the service and the queue of Bomberman; channels, chat and
-- accounts; texts of transactions and messages, time stamps, delivery over sockets, the views sent
-- to clients. Handlers run one after another; Rooms/Races and Friends/Races run two that both have
-- read.
pub mod Base
pub mod Common
pub mod Wallet
pub mod Wager
pub mod Rooms
pub mod TienLen
pub mod Caro
pub mod Bomberman
pub mod Leveling
pub mod Friends
pub mod Matchmaking
pub mod Challenges
pub mod Servers
