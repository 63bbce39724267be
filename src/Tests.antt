-- ===== src/Tests.antt =====
-- Runs of the model on concrete inputs, and the theorems at inputs that meet their hypotheses.
mod Rtmp
mod Session
mod Peers
mod System
mod Rendezvous
mod Network
mod Bypass
mod Notification
mod Hosts
mod Direct
mod Prototype
mod Cdn
mod Experiment
mod Measured
