-- ===== src/Cgicc.antt =====
-- The CGI library of the servers as their tree has it, cocgi/cgicc_lib.
pub mod Url
pub mod Strings
pub mod Forms
pub mod Entries
pub mod Object
