-- ===== src/Tests.antt =====
-- The theorems on concrete displays, files, tables and requests.
mod Greeting
mod Daemon
mod Servers
mod Queries
mod Packets
mod Manage
mod Authority
mod Revival
mod AccessFile
mod Process
mod Environment
