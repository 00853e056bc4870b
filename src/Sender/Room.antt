-- ===== src/Sender/Room.antt =====
-- src/spead.c: how the room of a packet falls into the data that `packetize_item_group` still has to copy.
use mathlib.Core.List.{append_assoc, append-nil}
use spead.Base.{
  ℕ, ◌-◌, ◌≤◌, ◌≡◌, ap, sym, ◌∙◌, List, [], ◌++◌, length, take, drop, arith, length-append,
}
use spead.Base.Slices.{take-append_right, drop-append_right, take_all, drop_all, nil_of_length}

-- How a packet's room, `n` bytes, falls into what is left of an item and the others' data.
module _ (cur tail : List ℕ) (n : ℕ) where
  pub take_through :
      (done : List ℕ) (s : ℕ)
      → length cur ≤ n
      → s - length done ≡ n
      → (done ++ cur) ++ take (s - length (done ++ cur)) tail ≡ done ++ take n (cur ++ tail)
  take_through done s h room =
      let less : s - length (done ++ cur) ≡ n - length cur =
        omega (arith, room, length-append done cur) in
      rw less (append_assoc done cur (take (n - length cur) tail))
      ∙ ap (λ t. done ++ t) (sym (take-append_right cur tail n h))

  pub drop_through :
      (done : List ℕ) (s : ℕ)
      → length cur ≤ n
      → s - length done ≡ n
      → drop (s - length (done ++ cur)) tail ≡ drop n (cur ++ tail)
  drop_through done s h room =
      let less : s - length (done ++ cur) ≡ n - length cur =
        omega (arith, room, length-append done cur) in
      rw less (sym (drop-append_right cur tail n h))

  pub take_whole : length cur ≤ n → length tail ≡ 0 → take n (cur ++ tail) ≡ cur
  take_whole h none_left = rw (nil_of_length tail none_left, append-nil cur) (take_all cur n h)

  pub drop_whole : length cur ≤ n → length tail ≡ 0 → drop n (cur ++ tail) ≡ tail
  drop_whole h none_left =
      drop-append_right cur tail n h
      ∙ rw (nil_of_length tail none_left) (drop_all [] (n - length cur) (omega arith))
