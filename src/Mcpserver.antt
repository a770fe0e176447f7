-- ===== src/Mcpserver.antt =====
-- internal/mcpserver/server.go: the tools that agents call. The protocol is a library's; a tool
-- gets its arguments, already read, and gives a text or an error.
pub mod Tool
pub mod Calls
