-- ===== src/Examples.antt =====
-- Concrete inputs: each theorem of the results applied where its hypotheses hold.
mod Data
mod Queues
mod Trees
mod Wires
mod Brokers
mod Caches
mod Services
