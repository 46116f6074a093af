-- ===== src/Tests.antt =====
-- Runs of the model, and the theorems at concrete inputs.
mod Memory
mod Formats
mod Texts
mod Blocks
mod Rounds
mod Start
mod Images
mod Commands
mod Devices
mod Keys
mod Addresses
mod Printing
mod Numbers
mod Symbols
mod Lines
mod Kernel
mod Answers
mod Panics
