-- ===== src/Tests.antt =====
-- The theorems at concrete inputs, and runs of the definitions.
mod Serving
mod Net
mod Bounded
mod Queue
mod Overlap
mod Life
mod Link
mod Delivery
mod Log
mod Start
mod Packets
mod Messages
mod Sessions
mod Players
mod Sockets
mod Threads
mod Timers
