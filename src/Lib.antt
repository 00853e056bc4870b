-- ===== src/Lib.antt =====
-- spead: the core of a SPEAD library in C. The receiving side reads packets, joins them to heaps and takes
-- the heaps apart into items; the sending side cuts items into packets; both keep them in containers of
-- the library's own.
--
-- The parts, their files and their modules:
--
-- - src/spead_packet.h: the words of a packet. Packet.Word has one function per macro; its children
--   read them back (Fields) and store them in an array in network order (Network).
-- - src/spead_packet.c, packets: Packet has `spead_packet_init`, `spead_packet_copy`,
--   `spead_packet_unpack_header` and `spead_packet_unpack_items` by these names, a packet's array as a
--   list of bytes with the address it stands at. Children: Header, Unpack, Copy.
-- - src/spead_packet.c, heaps: SpeadHeap has `spead_heap_add_packet` and
--   `spead_heap_got_all_packets`, the packets of a heap as the list along `next`. Children: Order (the
--   chain), Complete (what the answer 1 means), Item (`struct spead_item`), Finalize
--   (`spead_heap_wipe` and `spead_heap_finalize`, with `malloc` of the C library as a parameter) and
--   below it Extract (the loop that copies an item's value).
-- - src/stack.c: Stack, with the children Lifo and Funnel. A callback is a function on the state its
--   `data` argument points at; `shared_malloc` is what it answers.
-- - src/queue.c: Queue, the list whose nodes hold the exclusive or of their neighbours' addresses, over
--   a memory from addresses to nodes. Children: Links (which nodes a queue has), Fifo.
-- - src/hash.c: HashTable, the bank of packet objects and the tables they move to and from. Children:
--   Bank, Store, Traverse, Single (`single_traverse_hash_table`, with its static variables as a record).
-- - src/itemgroup.c: ItemGroup, items cut one behind the other from a mapping.
--   Children: Cut, Find, Walk, Fill.
-- - src/avltree.c: Avl, search trees with the rotations, a node's parents as a list of the nodes above
--   it. Children: Add (the way down and up), Balance, Insert, Order, Place, Find.
-- - src/sharedmem.c: SharedMem, the regions, the blocks cut from them and the lists of free blocks, with
--   the tree of Avl. Children: Blocks, Free. The other modules take what `shared_malloc` answers as a
--   parameter.
-- - src/mutex.c and src/mutex.h: Mutex, the places of a process in `lock_mutex` and `unlock_mutex` and
--   what it does there in one access to the int. Children: System (processes in any order, with the
--   kernel's futex calls), Exclusion, Wakeup.
-- - src/spead.c: Receiver. Items has the callbacks that collect a heap's item pointers and compute
--   their lengths (children: Collect, Whole, Lengths), Convert the copy of the payload into an item
--   group (Part, Place and Copy for one item, Single and Deliver for all, Zero for a packet without
--   payload), Process has `process_items` (Sliced, Group), and Store has `get_ht_hs`,
--   `store_packet_hs` and `process_packet_hs` on the store of heaps (Table, Complete).
-- - src/spead.c, the other way: Sender. State and Loop have `packetize_item_group`, a function for each case
--   of its `switch` over a record of its variables; Terminator has `send_spead_stream_terminator`. Words,
--   Frame, Open, Start and Close are about the words of a packet and its unpacking, Copy, Fill, Room,
--   Pass and Passes about the state `PZ_COPYDATA`, Rounds, Cut, Sent, Whole and Packets about the loop and
--   what it returns, Errors about what it does without packets or items.
-- - both ways: Transfer. Items says what the receiver collects from the sender's item pointers, Slots is a
--   table of the receiver with the sender's packets, at most one at an index, Delivered runs
--   `process_items` on it.
--
-- Base holds the numbers, lists, Boolean tests, integers and bit laws that the modules share, and Tests
-- runs the functions and applies the theorems to small data.
--
-- A packet enters by `process_packet_hs`, which unpacks it and stores it in the table of its heap by
-- `add_o_ht`. Once the table has as many bytes as the heap, `process_items` goes over the packets to
-- collect the items on one stack, computes their lengths on the way to another, and copies their bytes
-- into an item group; the objects go back to the bank by `empty_hash_table`. `spead_heap_add_packet` and
-- `spead_heap_finalize` are the other way from packets to items, over a chain of packets. A sender calls
-- `packetize_item_group`, which takes packets from the same bank and puts them into a table of the same
-- store by the same `get_ht_hs` and `add_o_ht`, and walks the group by `get_next_spead_item`.
--
-- Unsigned 64-bit arithmetic is written with its modulus. Signed numbers are of the type ℤ of Base.Int.
-- The comparison of a tree is a function into ℤ.
-- `none` as the result of a function is a NULL pointer that is read, an access outside an array, a division
-- by 0, the overflow of an `int`, or fuel that ran out. Fuel: the search of an item group has a round per item and one more; the
-- traversal of a table two rounds per object, one per chain and two; the loop of `destroy_queue` a
-- round per object and one more; the copy of an item into a group a round per byte at most;
-- `packetize_item_group` four rounds for each packet at hand in the bank, one for each item, and two;
-- `shared_free` calls itself only where there is no memory for a node. All other loops recurse on the
-- list or the number they go through.
--
-- A function that takes a lock is one critical section; the locks themselves are in Mutex. The quotient
-- that `hash_fn_spead_packet` computes in floating point, and what `shared_malloc`, `malloc` and `mmap`
-- answer in the other modules, are parameters.
--
-- Not modelled: `create_store_hs` and `destroy_store_hs`, `create_shared_mem` and `destroy_shared_mem`,
-- sockets, files, subprocesses, loadable modules, the transmitter, the receiver's main loop, and the GPU
-- and utility programs.
pub mod Base
pub mod Mutex
pub mod SharedMem
pub mod Packet
pub mod SpeadHeap
pub mod Stack
pub mod Queue
pub mod HashTable
pub mod ItemGroup
pub mod Receiver
pub mod Sender
pub mod Transfer
pub mod Avl
mod Tests
