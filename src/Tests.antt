-- ===== src/Tests.antt =====
-- Runs on concrete inputs, and instances of the theorems.
mod Urls
mod Stores
mod Sockets
mod Scanning
mod Streams
mod Fetches
mod Options
mod Networks
