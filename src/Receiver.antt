-- ===== src/Receiver.antt =====
-- src/spead.c: what the receiver does with a packet. Items has the stack of item pointers that
-- `process_items` collects, Convert the item group that it makes of them, Store the tables of heaps and
-- the way of a packet through them.
pub mod Items
pub mod Convert
pub mod Process
pub mod Store
