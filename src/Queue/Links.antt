-- ===== src/Queue/Links.antt =====
-- src/queue.c: which nodes a queue consists of. Each node holds the exclusive or of its neighbours'
-- addresses, NULL outside the list.
use Prim.Native.Nat.{bit_xor}
use spead.Base.{
  ℕ, ◌≡◌, ◌≢◌, refl, sym, ap, ◌∙◌, Bool, true, false, ◌||◌, none, some, List, [], ◌∷◌, ◌++◌, ◌==◌,
  arith,
}
use spead.Base.Bits.{bit_xor-zero}
use spead.Queue.{Ptr, null, queue_node, Memory, Queue}

-- Address and object of each node, from the front.
abbrev pub Cells : Type 0
Cells = List (Ptr × ℕ)

abbrev pub has : Ptr → Cells → Bool
has a [] = false
has a ((p, _) ∷ rest) = (a == p) || has a rest

-- The address of the first node, NULL where there is none.
abbrev pub addr : Cells → Ptr
addr [] = null
addr ((p, _) ∷ rest) = p

-- The address of the last node, behind the node `prev`.
abbrev pub last_addr : Ptr → Cells → Ptr
last_addr prev [] = prev
last_addr prev ((p, _) ∷ rest) = last_addr p rest

-- The memory holds the nodes, at addresses that differ, behind the node `prev`.
abbrev pub Linked : Memory → Ptr → Cells → Type 0
Linked m prev [] = Unit
Linked m prev ((p, v) ∷ rest) =
    (p ≢ null)
    × (m p ≡ some (queue_node (bit_xor prev (addr rest)) v))
    × (has p rest ≡ false)
    × Linked m p rest

pub record IsQueue (m : Memory) (q : Queue) (cells : Cells) : Type 0 where
  pub front : q.q_front ≡ addr cells
  pub back : q.q_back ≡ last_addr null cells
  pub linked : Linked m null cells

-- A memory that agrees on the nodes' addresses holds the list too.
pub Linked-frame :
    (m g : Memory) (prev : Ptr) (cells : Cells)
    → ((a : Ptr) → has a cells ≡ true → g a ≡ m a)
    → Linked m prev cells
    → Linked g prev cells
Linked-frame m g prev [] same l = tt
Linked-frame m g prev ((p, v) ∷ rest) same l = (
  l.0,
  same p (ground arith) ∙ l.1,
  l.2,
  Linked-frame m g p rest (λ a i. same a (ground arith)) l.3,
)

-- The address before the last node, and the object of the last node.
abbrev pub before_last : Ptr → Ptr × ℕ → Cells → Ptr
before_last prev c [] = prev
before_last prev c (d ∷ rest) = before_last c.0 d rest

abbrev pub last_object : Ptr × ℕ → Cells → ℕ
last_object c [] = c.1
last_object c (d ∷ rest) = last_object d rest

pub has-last : (p : Ptr) (v : ℕ) (rest : Cells) → has (last_addr p rest) ((p, v) ∷ rest) ≡ true
has-last p v [] = ground arith
has-last p v ((q, w) ∷ rest) = ground (arith, has-last q w rest)

-- What the last node holds.
pub last_node :
    (m : Memory) (prev p : Ptr) (v : ℕ) (rest : Cells)
    → Linked m prev ((p, v) ∷ rest)
    → (last_addr p rest ≢ null)
      × (m (last_addr p rest)
          ≡ some (queue_node (before_last prev (p, v) rest) (last_object (p, v) rest)))
last_node m prev p v [] l = (l.0, l.1 ∙ ap (λ x. some (queue_node x v)) (bit_xor-zero prev))
last_node m prev p v ((q, w) ∷ rest) l = last_node m p q w rest (l.3)

has-snoc :
    (a : Ptr) (cells : Cells) (fresh : Ptr) (v : ℕ)
    → has a (cells ++ (fresh, v) ∷ []) ≡ (has a cells || (a == fresh))
has-snoc a [] fresh v = ground arith
has-snoc a ((p, w) ∷ rest) fresh v = ground (arith, has-snoc a rest fresh v)

-- The list with a node behind it: the old last node now meets the new one, and nothing else changes.
pub Linked-snoc :
    (m g : Memory) (prev p : Ptr) (v : ℕ) (rest : Cells) (fresh : Ptr) (o : ℕ)
    → fresh ≢ null
    → has fresh ((p, v) ∷ rest) ≡ false
    → Linked m prev ((p, v) ∷ rest)
    → g fresh ≡ some (queue_node (last_addr p rest) o)
    → g (last_addr p rest)
      ≡ some (queue_node (bit_xor (before_last prev (p, v) rest) fresh) (last_object (p, v) rest))
    → ((a : Ptr) → a ≢ fresh → a ≢ last_addr p rest → g a ≡ m a)
    → Linked g prev ((p, v) ∷ (rest ++ (fresh, o) ∷ []))
Linked-snoc m g prev p v [] fresh o ne out l at_fresh at_last same = (
  l.0,
  at_last,
  ground arith,
  (ne, at_fresh ∙ ap (λ x. some (queue_node x o)) (sym (bit_xor-zero p)), refl, tt),
)
Linked-snoc m g prev p v ((q, w) ∷ rest) fresh o ne out l at_fresh at_last same =
    let apart : p ≢ last_addr q rest =
      λ e. cc (has-last q w rest, ap (λ a. has a ((q, w) ∷ rest)) e, l.2) in
    (
      l.0,
      same p (ground arith) apart ∙ l.1,
      ground (arith, has-snoc p ((q, w) ∷ rest) fresh o, l.2),
      Linked-snoc m g p q w rest fresh o ne (ground arith) (l.3) at_fresh at_last same,
    )

-- A free address is none of the list's.
pub not-has_of_free :
    (m : Memory) (prev : Ptr) (cells : Cells) (fresh : Ptr)
    → m fresh ≡ none
    → Linked m prev cells
    → has fresh cells ≡ false
not-has_of_free m prev [] fresh free l = refl
not-has_of_free m prev ((p, v) ∷ rest) fresh free l =
    ground (arith, not-has_of_free m p rest fresh free (l.3), l.1)

pub last_addr-snoc :
    (prev : Ptr) (cells : Cells) (fresh : Ptr) (v : ℕ)
    → last_addr prev (cells ++ (fresh, v) ∷ []) ≡ fresh
last_addr-snoc prev [] fresh v = refl
last_addr-snoc prev ((p, w) ∷ rest) fresh v = last_addr-snoc p rest fresh v
