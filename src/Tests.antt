-- ===== src/Tests.antt =====
-- Runs of the models at small inputs, and an instance of each theorem that has hypotheses.
mod World
mod Hash
mod Locks
mod Device
mod Threads
mod Daemon
mod Client
mod Benchmark
mod Connections
mod Latency
mod Walk
