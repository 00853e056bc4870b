-- ===== src/Tests.antt =====
-- Runs of the modelled functions and the theorems at concrete inputs.
mod PacketTests
mod HeapTests
mod StackTests
mod QueueTests
mod HashTests
mod GroupTests
mod AvlTests
pub mod ReceiverTests
mod CopyTests
mod StoreTests
mod MutexTests
mod SharedTests
mod SenderTests
mod TransferTests
