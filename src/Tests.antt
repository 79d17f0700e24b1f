-- ===== src/Tests.antt =====
-- Runs of the models at concrete inputs, and the theorems at inputs that meet their hypotheses.
mod Data
mod Server
mod Client
mod Lines
mod Workers
mod Sessions
mod Servers
mod LifeCycles
mod Threads
mod Processes
mod Sets
mod Codes
mod Programs
mod Sharing
