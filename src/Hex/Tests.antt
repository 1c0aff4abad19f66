-- ===== src/Hex/Tests.antt =====
-- Hexadecimal text and 8.3 names.
use hatcher.Base.{◌≡◌, refl, some, [], ◌∷◌}
use hatcher.Hex.{fat_name_from_string}

-- "boot.cfg"
fat_name_run :
    fat_name_from_string (some (b'b' ∷ b'o' ∷ b'o' ∷ b't' ∷ b'.' ∷ b'c' ∷ b'f' ∷ b'g' ∷ []))
    ≡ b'B' ∷ b'O' ∷ b'O' ∷ b'T' ∷ 32 ∷ 32 ∷ 32 ∷ 32 ∷ b'C' ∷ b'F' ∷ b'G' ∷ []
unfolding fat_name_from_string
fat_name_run = refl
