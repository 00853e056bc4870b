-- ===== src/Transfer.antt =====
-- src/spead.c, both ways: what `packetize_item_group` puts into packets, and what `process_items` makes of
-- packets that stand in the table of a receiver.
pub mod Items
pub mod Slots
pub mod Delivered
