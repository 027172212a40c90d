-- ===== src/Examples.antt =====
-- The theorems on concrete inputs, and runs of the definitions.
mod Queues
mod Pages
mod Envs
mod Start
mod Files
mod Library
mod Requests
mod Calls
mod Descriptors
mod Spaces
mod Copies
mod Forks
mod Memory
mod Device
