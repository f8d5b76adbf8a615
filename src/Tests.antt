-- ===== src/Tests.antt =====
-- Libraries, tables and packets to try the program on, and its theorems at concrete inputs.
mod Streams
mod Setting
mod Chats
mod Interleavings
mod Frames
mod Friends
mod Traffic
mod Conversations
mod Threads
mod Requests
mod Accounts
mod Registrations
mod Parts
mod Connections
mod Logins
mod Values
mod Tables
