-- ===== src/Mucgi.antt =====
-- The event-loop FastCGI server: the files of mucgi/.
pub mod Params
pub mod Codec
pub mod Respond
pub mod Backend
pub mod Session
pub mod Agreement
pub mod Messages
pub mod Maps
pub mod Setup
pub mod Sequence
pub mod Exchange
pub mod Forms
