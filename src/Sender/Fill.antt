-- ===== src/Sender/Fill.antt =====
-- src/spead.c: `PZ_COPYDATA` until a packet is full or the data is at its end.
use spead.Base.{ℕ, suc, ◌+◌, ◌^◌, ◌≤◌, ◌<◌, ◌≡◌, some, Option, List, ◌++◌, ◌⊎◌, length, arith}
use spead.Packet.{SpeadPacket}
use spead.Packet.Word.{spead_item}
use spead.HashTable.{HashObject, ObjectBank, HashTable}
use spead.ItemGroup.{SpeadApiItem, SpeadItemGroup}
use spead.ItemGroup.Walk.{Walks}
use spead.Sender.State.{PzState, pz_copydata, pz_hashpacket, Packetizer}
use spead.Sender.Loop.{pz_switch}
use spead.Sender.Frame.{IsFilling}
use spead.Sender.Open.{all_data, AllHeld}
use spead.Sender.Copy.{Runs, Runs-step, len_word, piece}

-- An item of which `remain` bytes are left from `ioff` on.
pub record IsUnderWay (itm : Option SpeadApiItem) (ioff remain : ℕ) (rest : List SpeadApiItem)
    (left : List ℕ) : Type 0 where
  pub item : SpeadApiItem
  pub current : itm ≡ some item
  pub some_left : 0 < remain
  pub readable : ioff + remain ≤ length item.i_data
  pub bounded : length item.i_data < 2 ^ 64
  pub data_left : left ≡ piece item ioff remain ++ all_data rest

-- Where the copying stands: `left` is the data that is still to be copied.
pub record Stands (ig : SpeadItemGroup) (itm : Option SpeadApiItem) (cursor ioff remain : ℕ)
    (rest : List SpeadApiItem) (left : List ℕ) : Type 0 where
  pub walk : Walks ig itm cursor rest
  pub all_held : AllHeld rest
  pub under_way : ((remain ≡ 0) × (left ≡ all_data rest)) ⊎ IsUnderWay itm ioff remain rest left

module _ (hfn : HashObject SpeadPacket → ℕ) (ig : SpeadItemGroup) (fuel pkt_size hid heap_len : ℕ)
    (bank : ObjectBank SpeadPacket) (ht : HashTable SpeadPacket) (m at : ℕ) where
  -- The variables behind the words of a packet.
  abbrev pub pz : PzState → SpeadPacket → Option SpeadApiItem → ℕ → ℕ → ℕ → ℕ → ℕ → ℕ → Packetizer
  pz st p itm cursor count off ioff remain didcopy = record {
    state = st;
    bank = bank;
    table = ht;
    packet = some p;
    itm = itm;
    cursor = cursor;
    payload_off = at;
    count = count;
    off = off;
    ioff = ioff;
    remain = remain;
    didcopy = didcopy;
    nitems = 4;
  }

  -- From `start`, `PZ_HASHPACKET` is reached with a packet that holds `payload`, and `left` is left.
  pub record Full (start : Packetizer) (budget : ℕ) (ws payload left : List ℕ) : Type 0 where
    pub packet : SpeadPacket
    pub itm : Option SpeadApiItem
    pub cursor : ℕ
    pub off : ℕ
    pub ioff : ℕ
    pub remain : ℕ
    pub didcopy : ℕ
    pub rest : List SpeadApiItem
    pub filling : IsFilling packet m hid heap_len at ws payload
    pub measured : spead_item packet.bytes 4 ≡ some (len_word (length payload))
    pub stands : Stands ig itm cursor ioff remain rest left
    pub next_off : 0 < length left → off ≡ 0
    pub cost : ℕ
    pub cheap : cost + length rest ≤ budget
    pub runs :
        (n : ℕ) (r : Packetizer)
        → Runs hfn ig fuel pkt_size hid heap_len
            (pz pz_hashpacket packet itm cursor (length left) off ioff remain didcopy)
            n
            r
        → Runs hfn ig fuel pkt_size hid heap_len start (cost + n) r

  -- One pass in front of the others.
  pub Full-step :
      (z z' : Packetizer) (budget : ℕ) (ws payload left : List ℕ)
      → pz_switch hfn ig fuel pkt_size hid heap_len pz_copydata z.packet
          (record z { state = pz_copydata })
        ≡ some z'
      → Full z' budget ws payload left
      → Full (record z { state = pz_copydata }) (suc budget) ws payload left
  Full-step z z' budget ws payload left step f = record {
    packet = f.packet;
    itm = f.itm;
    cursor = f.cursor;
    off = f.off;
    ioff = f.ioff;
    remain = f.remain;
    didcopy = f.didcopy;
    rest = f.rest;
    filling = f.filling;
    measured = f.measured;
    stands = f.stands;
    next_off = f.next_off;
    cost = suc f.cost;
    cheap = omega (arith, f.cheap);
    runs = λ n r h rounds enough.
        Runs-step hfn ig fuel pkt_size hid heap_len pz_copydata z z' r (f.cost + n) (λ e. cc) step
          (f.runs n r h) rounds (omega arith);
  }

  pub Full-weaken :
      (z : Packetizer) (budget more : ℕ) (ws payload left : List ℕ)
      → Full z budget ws payload left
      → budget ≤ more
      → Full z more ws payload left
  Full-weaken z budget more ws payload left f h = record {
    packet = f.packet;
    itm = f.itm;
    cursor = f.cursor;
    off = f.off;
    ioff = f.ioff;
    remain = f.remain;
    didcopy = f.didcopy;
    rest = f.rest;
    filling = f.filling;
    measured = f.measured;
    stands = f.stands;
    next_off = f.next_off;
    cost = f.cost;
    cheap = omega (arith, f.cheap);
    runs = f.runs;
  }
