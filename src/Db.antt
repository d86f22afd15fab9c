-- ===== src/Db.antt =====
-- The database: the statements that the model classes send, the tables that they are about, the
-- server and pool as the model classes see them, the two calls of class `MySQL`, a server that reads
-- the statements, the connection pool, and a connection by itself.
pub mod Statement
pub mod Tables
pub mod Backend
pub mod Calls
pub mod Server
pub mod Pool
pub mod Pooled
pub mod Connection
