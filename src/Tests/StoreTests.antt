-- ===== src/Tests/StoreTests.antt =====
-- A server that has the first of the two packets of a heap, and gets the second.
use spead.Base.{ℕ, ◌*◌, ◌/◌, some, [], ◌∷◌}
use spead.Base.Int.{pos}
use spead.Packet.{SpeadPacket}
use spead.HashTable.{HashTable, create_hash_table}
use spead.Receiver.Items.Whole.{tables}
use spead.Receiver.Store.{Server}
use spead.Tests.ReceiverTests.{first, heap}

abbrev scaled : ℕ → ℕ → ℕ → ℕ
scaled off heap_len len = off * len / heap_len

abbrev half : HashTable SpeadPacket
half = record {
  t_processing = 0;
  t_id = 1;
  t_len = 4;
  t_data_count = 3;
  t_data_id = pos 7;
  t_items = 7;
  t_os = some ((some first ∷ []) ∷ [] ∷ [] ∷ [] ∷ []);
}

abbrev server : Server
server = record {
  s_hs = record {
    s_backlog = 2;
    s_hash = create_hash_table 0 4 ∷ half ∷ [];
    s_list = record { l_len = 0; l_olen = 9400; l_top = [] };
  };
  s_hpcount = 0;
  s_hdcount = 0;
}

abbrev whole : HashTable SpeadPacket
whole = record half { t_os = some (tables heap) }
