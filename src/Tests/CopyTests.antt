-- ===== src/Tests/CopyTests.antt =====
-- The copy of an item's bytes, and the tables of a server, at small data.
use spead.Base.{
  ℕ, suc, ◌%◌, ◌==◌, arith, ◌≡◌, ◌≢◌, refl, false, none, some, List, [], ◌∷◌, take, drop,
}
use mathlib.Core.List.{reverse_aux}
use spead.Base.Int.{pos, negsuc}
use spead.Packet.{SpeadPacket}
use spead.Packet.Word.{to_network}
use spead.HashTable.{HashObject, ObjectBank, HashTable, create_hash_table, s_get_object}
use spead.HashTable.Bank.{objects}
use spead.HashTable.Single.{Cursor, single_traverse}
use spead.ItemGroup.{blank_item}
use spead.Receiver.Convert.{Parcel, copy_direct_spead_item, copy_loop}
use spead.Receiver.Convert.Part.{Wants}
use spead.Receiver.Convert.Place.{at_start, table_payload}
use spead.Receiver.Convert.Copy.{Copied, copy_loop-copies}
use spead.Receiver.Convert.Zero.{AtStart, copy_loop-stuck}
use spead.Receiver.Items.Whole.{tables}
use spead.Receiver.Process.{start_data}
use spead.Receiver.Store.{Server, get_ht_hs}
use spead.Receiver.Store.Table.{dropped, get_ht_hs-tables}
use spead.Tests.ReceiverTests.{first, heap, heap-IsHeap}

-- An item of four bytes, the only one of its group.
abbrev at_work : Parcel
at_work = record {
  p_c = start_data 5;
  p_ig = record { g_cd = 0; g_items = 1; g_size = 100; g_off = 44; g_map = blank_item 4 ∷ [] };
  p_i = 0;
}

abbrev first_place : Cursor SpeadPacket
first_place = record { cstate = s_get_object; coi = 0; co = [] }

at_work-Wants : Wants at_work (blank_item 4) 4
at_work-Wants = record {
  active = refl;
  is_item = record { whole = refl; within = omega arith; small = omega arith };
  left = refl;
  asked = refl;
}

copy_loop-copies_example :
    Copied 4
      (tables heap)
      4
      first_place
      at_work
      (blank_item 4)
      (take 4 (table_payload (tables heap)))
      (drop 4 (table_payload (tables heap)))
unfolding to_network
copy_loop-copies_example =
    copy_loop-copies (tables heap) 4 4 first_place at_work (blank_item 4)
      (table_payload (tables heap)) (at_start (tables heap) refl refl refl heap-IsHeap.plain refl)
      at_work-Wants (omega arith) (omega arith) (omega arith)

-- A packet without payload.
abbrev empty : SpeadPacket
empty = record first { payload_len = 0 }

abbrev with_empty : List (List (HashObject SpeadPacket))
with_empty = (some empty ∷ []) ∷ [] ∷ (some first ∷ []) ∷ []

copy_loop-stuck_example :
    (c : Cursor SpeadPacket) × (cp : Parcel) × (single_traverse copy_direct_spead_item 3 with_empty
        first_place
        (some at_work)
      ≡ some (pos 3, c, some cp))
    × AtStart c cp (blank_item 4)
    × (cp.p_ig ≡ at_work.p_ig)
    × (cp.p_i ≡ 0)
    × ((n : ℕ)
        → (copy_loop 3 with_empty (suc n) first_place at_work ≡ copy_loop 3 with_empty n c cp)
          × (copy_loop 3 with_empty n first_place at_work ≡ none))
copy_loop-stuck_example =
    copy_loop-stuck empty [] ([] ∷ (some first ∷ []) ∷ []) first_place at_work (blank_item 4) refl
      (record { looking = refl; first_chain = refl; first_byte = refl; active = refl })

-- Two tables, the second of them with a packet of heap 7.
abbrev taken : HashTable SpeadPacket
taken = record {
  t_processing = 0;
  t_id = 1;
  t_len = 2;
  t_data_count = 3;
  t_data_id = pos 7;
  t_items = 7;
  t_os = some ((some first ∷ []) ∷ [] ∷ []);
}

abbrev server : Server
server = record {
  s_hs = record {
    s_backlog = 2;
    s_hash = create_hash_table 0 2 ∷ taken ∷ [];
    s_list = record { l_len = 0; l_olen = 9400; l_top = [] };
  };
  s_hpcount = 0;
  s_hdcount = 0;
}

get_ht_hs-tables_example :
    (taken.t_data_id ≡ negsuc 0
      → get_ht_hs server (pos 9) ≡ some (1, some (record taken { t_data_id = pos 9 }), server))
    × (taken.t_data_id ≡ pos 9 → get_ht_hs server (pos 9) ≡ some (1, some taken, server))
    × ((m : ℕ)
        → taken.t_data_id ≡ pos m
        → m ≢ 9
        → (bank : ObjectBank SpeadPacket) × (get_ht_hs server (pos 9)
            ≡ some (1, some (create_hash_table {P = SpeadPacket} 1 2), dropped server bank))
          × (bank.l_top ≡ reverse_aux (objects ((some first ∷ []) ∷ [] ∷ [])) []))
    × ((k : ℕ) → (suc k % 2 == 0) ≡ false → get_ht_hs server (negsuc k) ≡ none)
get_ht_hs-tables_example =
    get_ht_hs-tables server 9 taken ((some first ∷ []) ∷ [] ∷ []) refl refl refl refl (omega arith)
      (record { counted = refl; bounded = omega arith }) (omega arith)
