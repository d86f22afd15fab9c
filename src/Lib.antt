-- ===== src/Lib.antt =====
-- A chat server in C++: clients send JSON over TCP, MySQL holds the users, friends, groups and the
-- messages that wait, and several servers pass messages on to each other through Redis.
--
-- The parts, from the network to the database, and their files:
--   * src/server/chatserver.cc takes bytes from muduo and hands each message to the handler of its
--     `msgid`. Service/Dispatch: `on_message`, `on_connection`, `get_handler`, `handlers`.
--   * src/server/chatservice.cc and include/server/chatservice.hpp: the handlers. Service/World has
--     the state: `conns` for `_userConnMap`, the database as the handlers see it, and the list of
--     what went out (sends, publications, subscriptions). Service/Session has `login`, `reg`,
--     `loginout`, `client_close_exception` and `reset`, Service/Chat has `one_chat`, `group_chat`
--     and `handle_redis_subscribe_message`, Service/Social has `add_friend`, `create_group` and
--     `add_group`. Service/Run puts them together as the steps of a server, and Service/Mailbox states
--     what they promise to the users.
--   * src/server/model/*.cc and include/server/model/*.hpp: the classes that compose SQL. Model has
--     a module to a class; Protocol has the data classes and the codes of include/public.hpp.
--   * src/server/db/db.cc: Db/Calls has `MySQL::update` and `MySQL::query`, the `sprintf` into
--     `char sql[1024]`, and the block that asks the pool for a connection. Db/Statement has the SQL
--     of all methods, as the bytes that are sent. Db/Connection has the rest of the class.
--   * src/server/db/dbpool.cc: the connection pool. Db/Pool has its operations, Db/Pool/Steps its
--     runs, Db/Pool/Waiting the wait of `getConnection`, Db/Pool/Settings `loadConfigFile`.
--   * src/server/redis/redis.cc: Redis has the connections and the commands that go over them,
--     Service/Observer the thread that reads the channels.
--   * src/client/main.cc: the console client. Client has what a line of the main menu sends,
--     Client/State what the client keeps and prints, Client/Keyboard what it reads from `cin`,
--     Client/Dialogs the dialogues for login and registration with `showCurrentUserData`,
--     Client/Receiver the thread `readTaskHandler`. The other files of Client put these together with
--     the handlers of the server.
--
-- A handler is an action on the state that returns or ends in a fault: an exception of the JSON
-- library that nothing catches, a null row that is read, a buffer that overflows, or the front of an
-- empty queue (Base/Outcome). Each handler is one step, with no other thread's between its calls;
-- Service/Session/Racing has the case of two logins that read the row before either goes on, and
-- Service/Chat/Overtaken that of a message that a login of its receiver overtakes.
-- The loops go over lists; the only fuel is that of `read_lines`, the length of the file, since every
-- line takes a byte, and that of `write_out`, one round more than there are bytes to send and signals
-- to come, since every round sends a byte or is interrupted.
--
-- Parameters: the JSON library (`JsonLib` in Json), whose laws are that a value put is read back, is
-- contained and is printed, and that a dumped object has no NUL and is parsed as itself, also with a
-- NUL behind it; and the pool with the MySQL server (`Backend` in Db/Backend), which may time out or
-- refuse a statement at any time, and does what a statement says (`apply` and `select` in Db/Tables)
-- only if its arguments need no escaping. `IsHealthy` adds that nothing fails; Db/Pooled puts the pool
-- of Db/Pool into the place of its `acquire` and `release`.
-- hiredis, with the Redis server behind it, is the parameter `Hiredis` in Redis, and the client library
-- of MySQL, below the backend, `MysqlClient` in Db/Connection. The first three have instances:
-- Json/Sample, Db/Server, which reads the SQL text back, and Redis/Sample. Examples runs the theorems
-- on them.
--
-- Bounds: an `int` is an integer with `IsInt`, and `mysql_insert_id` is cut to 32 bits where it is
-- put into one. The limits on lengths are those of `sql`, `tmp` and the client's buffer of 1024 bytes.
--
-- Not modelled: what wakes the callers of the pool, which is any sequence of wake-ups; the sockets of
-- the client, and how the stream between client and server is cut into pieces: a `recv` gives what
-- one `send` sent; the entry points, the set-up of muduo, the log, and the copies of nlohmann/json.
pub mod Base
pub mod Protocol
pub mod Json
pub mod Db
pub mod Model
pub mod Redis
pub mod Service
pub mod Client
pub mod Examples
