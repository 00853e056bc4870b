-- ===== src/Sender.antt =====
-- src/spead.c, the sending side: State and Loop are `packetize_item_group`, and the other modules are what
-- is shown of it.
pub mod State
pub mod Loop
pub mod Words
pub mod Frame
pub mod Open
pub mod Start
pub mod Close
pub mod Copy
pub mod Fill
pub mod Room
pub mod Pass
pub mod Passes
pub mod Rounds
pub mod Cut
pub mod Sent
pub mod Whole
pub mod Packets
pub mod Errors
pub mod Terminator
