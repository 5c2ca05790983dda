-- ===== src/Tests.antt =====
-- Runs at fixed inputs, and the theorems at inputs that meet their hypotheses.
mod Demo
mod Scheduling
mod Semaphores
mod Names
mod Bytes
mod Heaps
mod Queues
mod Keys
mod Numbers
mod Slots
mod Files
mod Buddies
mod Streams
mod Lines
