-- ===== src/Fat/CreateFs.antt =====
-- drivers/fs/fat32.c: `fat32_create_fs`, the sectors that it writes.
pub mod NotMounted
use hatcher.Base.{
  ℕ, zero, suc, ◌+◌, ◌*◌, ◌/◌, ◌%◌, ◌^◌, Option, none, some, List, [], ◌∷◌, ◌++◌, take, drop,
  length, replicate,
}
use hatcher.Fat.Alloc.{Disk, ata_write_sector}
use hatcher.Fat.Create.{splice}

-- Values in the order of the bytes in memory.
abbrev pub bytes16 : ℕ → List ℕ
bytes16 v = v % 2 ^ 8 ∷ v / 2 ^ 8 % 2 ^ 8 ∷ []

abbrev pub bytes32 : ℕ → List ℕ
bytes32 v = bytes16 v ++ bytes16 (v / 2 ^ 16)

-- `bootloader_bin_`, which has room for 62 of its 68 initialisers.
abbrev pub bootloader_bin : List ℕ
bootloader_bin = take 62 (
    0xEB
    ∷ 0x21
    ∷ 0x90
    ∷ 0xB8
    ∷ 0x00
    ∷ 0x7C
    ∷ 0x8E
    ∷ 0xD8
    ∷ 0xBE
    ∷ 0x4E
    ∷ 0x00
    ∷ 0xAC
    ∷ 0x0C
    ∷ 0x00
    ∷ 0x74
    ∷ 0x09
    ∷ 0xB4
    ∷ 0x0E
    ∷ 0xBB
    ∷ 0x07
    ∷ 0x00
    ∷ 0xCD
    ∷ 0x10
    ∷ 0xEB
    ∷ 0xF3
    ∷ 0xF4
    ∷ 0xEB
    ∷ 0xFE
    ∷ replicate 40 0)

-- `bootmsg`, with its NUL.
abbrev pub bootmsg : List ℕ
bootmsg =
    b'T' ∷ b'h' ∷ b'i' ∷ b's' ∷ b' ' ∷ b'i' ∷ b's' ∷ b' ' ∷ b'n' ∷ b'o' ∷ b't' ∷ b' ' ∷ b'a' ∷ b' '
    ∷ b'b' ∷ b'o' ∷ b'o' ∷ b't' ∷ b'a' ∷ b'b' ∷ b'l' ∷ b'e' ∷ b' ' ∷ b'd' ∷ b'i' ∷ b's' ∷ b'k' ∷ 13
    ∷ 10 ∷ 0 ∷ []

-- The stores of the fields, in their order.
abbrev pub boot_fields : List (ℕ × List ℕ)
boot_fields =
    (0, 0xEB ∷ 0x3C ∷ 0x90 ∷ [])
    ∷ (3, b'M' ∷ b'S' ∷ b'D' ∷ b'O' ∷ b'S' ∷ b'5' ∷ b'.' ∷ b'0' ∷ [])
    ∷ (11, bytes16 512)
    ∷ (13, 1 ∷ [])
    ∷ (14, bytes16 32)
    ∷ (16, 2 ∷ [])
    ∷ (17, bytes16 0)
    ∷ (19, bytes16 0)
    ∷ (21, 0xF8 ∷ [])
    ∷ (22, bytes16 0)
    ∷ (24, bytes16 63)
    ∷ (26, bytes16 255)
    ∷ (28, bytes32 0)
    ∷ (32, bytes32 65536)
    ∷ (36, bytes32 123)
    ∷ (44, bytes16 0)
    ∷ (46, bytes16 0)
    ∷ (48, bytes32 2)
    ∷ (52, bytes16 1)
    ∷ (54, bytes16 6)
    ∷ (64, 0x80 ∷ [])
    ∷ (66, 0x29 ∷ [])
    ∷ (67, bytes32 0x12345678)
    ∷ (71, b'H' ∷ b'A' ∷ b'T' ∷ b'C' ∷ b'H' ∷ b'E' ∷ b'R' ∷ 32 ∷ 32 ∷ 32 ∷ 32 ∷ [])
    ∷ (82, b'F' ∷ b'A' ∷ b'T' ∷ b'3' ∷ b'2' ∷ 32 ∷ 32 ∷ 32 ∷ [])
    ∷ (0x3E, drop 3 bootloader_bin)
    ∷ (0x4E, bootmsg)
    ∷ (510, 0x55 ∷ 0xAA ∷ [])
    ∷ []

abbrev pub info_fields : List (ℕ × List ℕ)
info_fields =
    (0, bytes32 0x41615252)
    ∷ (484, bytes32 0x61417272)
    ∷ (488, bytes32 0xFFFFFFFF)
    ∷ (492, bytes32 0xFFFFFFFF)
    ∷ (510, 0x55 ∷ 0xAA ∷ [])
    ∷ []

abbrev pub store_fields : List (ℕ × List ℕ) → List ℕ → List ℕ
store_fields [] sector = sector
store_fields ((at, bytes) ∷ fields) sector = store_fields fields (splice at bytes sector)

abbrev pub empty_sector : List ℕ
empty_sector = replicate 512 0

-- `n` writes of zeros from sector `lba` on, whose results are not tested.
unfoldable pub clear_sectors : ℕ → ℕ → Disk → Disk
clear_sectors zero lba disk = disk
clear_sectors (suc n) lba disk =
    clear_sectors n (lba + 1)
      (elim (ata_write_sector lba empty_sector disk) [ none ↦ disk | some disk' ↦ disk' ])

-- `block` is the result of `kmalloc`, none for NULL.
unfoldable pub fat32_create_fs : Option (List ℕ) → Disk → Disk
unfolding clear_sectors
fat32_create_fs none disk = disk
fat32_create_fs (some block) disk =
    elim (ata_write_sector 0 (store_fields boot_fields empty_sector) disk) [
      | none ↦ disk
      | some disk1 ↦ elim (ata_write_sector 1 (store_fields info_fields empty_sector) disk1) [
        | none ↦ disk1
        | some disk2 ↦ clear_sectors (123 * 2) (32 + 32) (clear_sectors 32 32 disk2)
      ]
    ]
