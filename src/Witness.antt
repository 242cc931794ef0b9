-- ===== src/Witness.antt =====
-- The theorems at concrete inputs, by the part of the program that they are about.
mod Driver
mod Daemon
mod Contexts
mod Losing
mod Clients
mod Completions
mod Backing
mod Selection
mod Exchange
mod Binding
mod Evicting
mod Connecting
mod Setup
mod Trigger
