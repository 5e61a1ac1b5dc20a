-- ===== src/Tests.antt =====
-- The theorems at concrete inputs, and runs of the code.
mod Tables
mod Ids
mod Messages
mod Services
mod Walks
mod Locks
mod Accounts
mod Requests
mod Transfers
mod Files
mod Descriptors
mod Sending
mod Threads
mod Turns
