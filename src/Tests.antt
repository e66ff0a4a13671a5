-- ===== src/Tests.antt =====
-- Concrete runs of each part.
mod Protocol
mod Latency
mod Clock
mod Session
mod Surround
mod Codec
mod Stream
mod Ring
mod Pipeline
mod Server
mod Reach
mod Capture
mod Delivery
mod Requests
