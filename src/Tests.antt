-- ===== src/Tests.antt =====
-- The models run at concrete inputs, and the theorems applied to them.
mod Data
mod Cocgi
mod Server
mod Mucgi
mod Buffer
mod Cgicc
mod Process
mod Stored
mod Forms
mod MucgiForms
mod Served
mod Isolation
