-- ===== src/Protocol/Utf8.antt =====
-- `std::str::from_utf8`: which byte sequences are UTF-8. A `String` is modelled by its bytes.
use prism_db.Common.{
  ℕ, Bool, true, false, ◌&&◌, List, [], ◌∷◌, Option, none, some, if◌then◌else◌, leb, ltb, ◌==◌,
}

-- The ranges of the bytes that may follow a first byte.
unfoldable pub following : ℕ → Option (List (ℕ × ℕ))
following b =
    let any : ℕ × ℕ = (0x80, 0xbf) in
    if ltb b 0x80
    then some []
    else if ltb b 0xc2
    then none
    else if ltb b 0xe0
    then some (any ∷ [])
    else if b == 0xe0
    then some ((0xa0, 0xbf) ∷ any ∷ [])
    else if b == 0xed
    then some ((0x80, 0x9f) ∷ any ∷ [])
    else if ltb b 0xf0
    then some (any ∷ any ∷ [])
    else if b == 0xf0
    then some ((0x90, 0xbf) ∷ any ∷ any ∷ [])
    else if ltb b 0xf4
    then some (any ∷ any ∷ any ∷ [])
    else if b == 0xf4
    then some ((0x80, 0x8f) ∷ any ∷ any ∷ [])
    else none

unfoldable pub valid_after : List (ℕ × ℕ) → List ℕ → Bool
valid_after [] [] = true
valid_after (_ ∷ _) [] = false
valid_after ((low, high) ∷ ranges) (b ∷ bytes) =
    leb low b && (leb b high && valid_after ranges bytes)
valid_after [] (b ∷ bytes) = elim (following b) [
  | none ↦ false
  | some ranges ↦ valid_after ranges bytes
]

unfoldable pub is_utf8 : List ℕ → Bool
is_utf8 bytes = valid_after [] bytes
