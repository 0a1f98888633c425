-- ===== src/Tests.antt =====
-- The theorems at concrete inputs, and the code run on some of them.
mod Samples
mod Wires
mod Locks
mod Queues
mod Requests
mod Clients
mod Exchanges
mod Loops
mod Files
mod Disks
