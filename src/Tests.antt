-- ===== src/Tests.antt =====
-- Runs of the models of src/ on concrete inputs, and the theorems at such inputs.
mod Fifo
mod Backoffs
mod Job
mod LockManager
mod Worker
mod Processing
mod Postgres
mod ChildPool
mod QueueGetters
mod FlowProducer
mod JobScheduler
mod Redis
mod Queue
mod Sandbox
mod Moves
mod Scripts
mod BunClient
