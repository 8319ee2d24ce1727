-- ===== src/Witnesses.antt =====
-- Tests of the model on concrete inputs, and the theorems applied to such inputs.
mod Numbers
mod Tree
mod Packets
mod Broker
mod Listen
mod Handlers
mod Plugins
mod Startup
mod Sessions
