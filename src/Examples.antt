-- ===== src/Examples.antt =====
-- Runs of the model on concrete data.
mod Core
mod Envelope
mod Graph
mod Keys
mod Loop
mod Pairing
mod Remote
mod Worker
