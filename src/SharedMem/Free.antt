-- ===== src/SharedMem/Free.antt =====
-- src/sharedmem.c: a block that is given back is the next one of its size that is taken.
use spead.SharedMem.{SharedMem}
