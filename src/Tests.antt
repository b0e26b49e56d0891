-- ===== src/Tests.antt =====
-- The theorems at concrete inputs, and runs of the code on them.
mod Sim
mod Protocols
mod Epolls
mod Tables
mod Loops
mod Pairs
mod Utils
mod Servers
mod Clients
mod Threads
