-- ===== src/Tests.antt =====
-- Concrete runs of the theorems, by component.
mod Containers
mod Buffers
mod Ciphers
mod Frames
mod Servers
mod Events
mod Workers
mod Accounts
mod Batches
mod Loggers
mod Startups
mod Handshakes
mod Clients
