-- ===== src/Cocgi.antt =====
-- The coroutine FastCGI server: the files of cocgi/.
pub mod Kind
pub mod Header
pub mod Params
pub mod Codec
pub mod Respond
pub mod Backend
pub mod Session
pub mod Stored
pub mod Server
pub mod Process
