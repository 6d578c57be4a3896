-- ===== src/Net/Packet/Items.antt =====
-- What goes into packets: numbers and texts, and their bytes.
use network_omok.Base.{ℕ, ◌<◌, List, [], ◌∷◌, ◌++◌}
use network_omok.Net.Packet.{
  number_bytes, wide_bytes, Item, number, wide, Kind, number_of, wide_text,
}
use network_omok.Net.Packet.Bytes.{capacity, IsText}

-- A number of at least one byte that fits into its bytes, and a text without a zero.
abbrev pub IsItem : Item → Type 0
IsItem (number k n) = (0 < k) × (n < capacity k)
IsItem (wide us) = IsText us

abbrev pub AllItems : List Item → Type 0
AllItems [] = Unit {0}
AllItems (i ∷ is) = IsItem i × AllItems is

abbrev pub item_bytes : Item → List ℕ
item_bytes (number k n) = number_bytes k n
item_bytes (wide us) = wide_bytes us ++ (0 ∷ 0 ∷ [])

abbrev pub items_bytes : List Item → List ℕ
items_bytes [] = []
items_bytes (i ∷ is) = item_bytes i ++ items_bytes is

abbrev pub kind_of : Item → Kind
kind_of (number k n) = number_of k
kind_of (wide us) = wide_text
