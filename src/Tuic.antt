-- ===== src/Tuic.antt =====
-- src/tuic.rs: the TUIC client's pure parts: the commands on the wire, the reassembly of fragments,
-- the table of UDP associations, and the choice of transport.
pub mod Codec
pub mod Frag
pub mod Assoc
pub mod Plan
mod Tests
