-- ===== src/Tests.antt =====
-- Runs at concrete inputs.
mod Toy
mod Trees
mod Rules
mod Epochs
mod Closing
mod Chain
mod Access
mod Attacks
mod Tampering
mod Findings
mod Possession
mod Server
