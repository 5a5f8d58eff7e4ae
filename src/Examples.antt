-- ===== src/Examples.antt =====
-- Concrete states of the models, and what the theorems say at them.
mod World
mod Memory
mod Programs
mod Calls
mod Environments
mod Devices
mod Interrupts
mod Texts
mod Tables
mod Copying
mod Sharing
mod Cpus
mod Commands
