-- ===== src/Server.antt =====
-- The server of the repository and what it shares with its client: includes/conn.c, util.c,
-- util_server.c, configuration.c, API.c and server.c. `Cstring` has the functions of the C library that
-- they call on text.
pub mod Cstring
pub mod Conn
pub mod Wire
pub mod Request
pub mod Queue
pub mod Manager
pub mod Worker
pub mod Client
pub mod Config
