-- ===== src/Ata.antt =====
-- drivers/storage/ata.c: the drives, and the reading and writing of a sector, over the ports of the
-- controller.
pub mod Drives
pub mod Registers
pub mod Words
mod Tests
use hatcher.Base.{
  ℕ, zero, suc, ◌+◌, ◌-◌, ◌*◌, ◌/◌, ◌%◌, ◌^◌, Bool, true, false, not, Option, none, some, List, [],
  ◌∷◌, ◌++◌, ◌==◌, ◌&&◌, ◌||◌, ltb, leb, if◌then◌else◌, u32, take, drop, get_or, get_elem?, set,
  modify, replicate,
}
use hatcher.Base.Int.{ℤ, pos, negsuc}
use hatcher.Text.{until_zero, take_while, trim, strncpy}

-- The controller: what its ports take and give, and how that changes it.
pub record Device (D : Type 0) : Type 0 where
  pub outb : ℕ → ℕ → D → D
  pub inb : ℕ → D → ℕ × D
  pub outw : ℕ → ℕ → D → D
  pub inw : ℕ → D → ℕ × D

-- `ata_drive_t`
pub record Drive : Type 0 where
  pub present : Bool
  pub type : ℕ
  pub sectors : ℕ
  pub size : ℕ
  pub name : List ℕ
  pub vendor : List ℕ
  pub serial : List ℕ

abbrev pub no_drive : Drive
no_drive = record {
  present = false;
  type = 0;
  sectors = 0;
  size = 0;
  name = [];
  vendor = [];
  serial = [];
}

abbrev pub primary_base : ℕ
primary_base = 0x1F0

abbrev pub secondary_base : ℕ
secondary_base = 0x170

-- The bits BSY, DRQ and ERR of a status.
abbrev pub is_busy : ℕ → Bool
is_busy status = status / 2 ^ 7 % 2 == 1

abbrev pub wants_data : ℕ → Bool
wants_data status = status / 2 ^ 3 % 2 == 1

abbrev pub has_error : ℕ → Bool
has_error status = status % 2 == 1

-- The two bytes of a word, the high one first, from `n` words.
abbrev pub swapped : List ℕ → List ℕ
swapped [] = []
swapped (w ∷ words) = w / 2 ^ 8 % 2 ^ 8 ∷ w % 2 ^ 8 ∷ swapped words

-- `n` words from number `i` on, as text.
abbrev pub words_text : ℕ → ℕ → List ℕ → List ℕ
words_text i n buffer = trim (until_zero (swapped (take n (drop i buffer))))

abbrev pub vendor_of : List ℕ → List ℕ
vendor_of model = take_while (λ c. not (c == b' ' || c == b'-')) (take 40 model)

-- The entry for the words of IDENTIFY. The array `serial` has its NUL behind that of `vendor`, and the
-- store to `vendor[40]` is one to `serial[0]`.
unfoldable pub identified : List ℕ → Drive
unfolding until_zero take_while trim
identified buffer =
    let model = words_text 27 20 buffer in
    let sectors = get_or buffer 60 0 + get_or buffer 61 0 * 2 ^ 16 in
    record {
      present = true;
      type = 1;
      sectors = sectors;
      size = u32 (sectors * 512);
      name = strncpy model 40;
      vendor = strncpy (vendor_of model) 40;
      serial = [];
    }

abbrev pub absent : Drive → Drive
absent d = record d { present = false }

-- The entry of drive `i`; the store to `serial[20]` is one to `present` of the drive behind it.
unfoldable pub set_drive : ℕ → List ℕ → List Drive → List Drive
unfolding identified modify
set_drive i buffer drives = modify (i + 1) absent (set drives i (identified buffer))

-- The result and the table, by the drive's answer to IDENTIFY.
unfoldable pub answered : ℕ → List Drive → Option (List ℕ) → ℤ × List Drive
unfolding set_drive
answered drive drives none = (negsuc 0, drives)
answered drive drives (some buffer) = (pos 0, set_drive drive buffer drives)

abbrev pub if_present : Option Drive → Option Drive
if_present none = none
if_present (some d) = if d.present then some d else none

-- A drive that is in the table and present.
unfoldable pub ata_get_drive : ℕ → List Drive → Option Drive
ata_get_drive drive drives = if_present (get_elem? drives drive)

-- The test that `ata_read_sector` and `ata_write_sector` begin with.
abbrev pub if_there : {A : Type 0} → Option Drive → A → A → A
if_there none found missing = missing
if_there (some d) found missing = found

-- The writes to the registers for one sector, the last of them the command; `head` is 0 or 1.
unfoldable pub command_writes : ℕ → ℕ → ℕ → ℕ → List (ℕ × ℕ)
command_writes base head lba command =
    (base + 0x02, 1)
    ∷ (base + 0x03, lba % 2 ^ 8)
    ∷ (base + 0x04, lba / 2 ^ 8 % 2 ^ 8)
    ∷ (base + 0x05, lba / 2 ^ 16 % 2 ^ 8)
    ∷ (base + 0x06, 0xE0 + head * 2 ^ 4 + lba / 2 ^ 24 % 2 ^ 4)
    ∷ (base + 0x07, command)
    ∷ []

abbrev pub base_of : ℕ → ℕ
base_of drive = if ltb drive 2 then primary_base else secondary_base

-- The low byte of a word is the first in memory.
abbrev pub word_bytes : List ℕ → List ℕ
word_bytes [] = []
word_bytes (w ∷ words) = w % 2 ^ 8 ∷ w / 2 ^ 8 % 2 ^ 8 ∷ word_bytes words

module _ {D : Type 0} (dev : Device D) where
  -- The loop of `ata_wait`, with `n` rounds left.
  unfoldable pub wait_loop : ℕ → ℕ → D → D
  wait_loop zero base d = d
  wait_loop (suc n) base d =
      let r = dev.inb (base + 0x07) d in
      elim (n == 0 || not (is_busy r.0)) [ true ↦ r.1 | false ↦ wait_loop n base r.1 ]

  unfoldable pub ata_wait : ℕ → D → D
  unfolding wait_loop
  ata_wait base d = wait_loop 1000000 base d

  abbrev pub ata_check_error : ℕ → D → Bool × D
  ata_check_error base d = let r = dev.inb (base + 0x07) d in (has_error r.0, r.1)

  -- `drive` is 0 or 1.
  unfoldable pub ata_select_drive : ℕ → ℕ → D → D
  unfolding ata_wait
  ata_select_drive base drive d = ata_wait base (dev.outb (base + 0x06) (0xE0 + drive * 2 ^ 4) d)

  -- The loops that read the status until `test` fails: whether the time has run out, and the status.
  unfoldable pub poll : (ℕ → Bool) → ℕ → ℕ → ℕ → D → (Bool × ℕ) × D
  poll test zero base status d = ((true, status), d)
  poll test (suc n) base status d =
      let r = dev.inb (base + 0x07) d in
      elim (test status) [
        | false ↦ ((false, status), d)
        | true ↦ elim (n == 0) [ true ↦ ((true, status), d) | false ↦ poll test n base r.0 r.1 ]
      ]

  unfoldable pub read_words : ℕ → ℕ → D → List ℕ × D
  read_words zero base d = ([], d)
  read_words (suc n) base d =
      let r = dev.inw base d in let rest = read_words n base r.1 in (r.0 ∷ rest.0, rest.1)

  -- From the second status on: whether the drive has answered.
  unfoldable pub identify : ℕ → D → Option (List ℕ) × D
  unfolding poll read_words
  identify base d0 =
      let r0 = dev.inb (base + 0x07) d0 in
      let r1 = poll is_busy 1000000 base r0.0 r0.1 in
      let r2 = ata_check_error base r1.1 in
      let r3 = poll (λ s. not (wants_data s || has_error s)) 1000000 base r1.0.1 r2.1 in
      let r4 = read_words 256 base r3.1 in
      if r1.0.0
      then (none, r1.1)
      else if r2.0
      then (none, r2.1)
      else if r3.0.0 || has_error r3.0.1
      then (none, r3.1)
      else (some r4.0, r4.1)

  -- IDENTIFY as sent to a drive.
  unfoldable pub asked : ℕ → ℕ → D → D
  unfolding ata_select_drive ata_wait
  asked base drive d = ata_wait base (dev.outb (base + 0x07) 0xEC (ata_select_drive base drive d))

  unfoldable pub ata_init_drive : ℕ → ℕ → List Drive → D → (ℤ × List Drive) × D
  ata_init_drive base drive drives d =
      let r = identify base (asked base drive d) in (answered drive drives r.0, r.1)

  unfoldable pub ata_init : D → List Drive × D
  unfolding ata_init_drive
  ata_init d =
      let r0 = ata_init_drive primary_base 0 (replicate 4 no_drive) d in
      let r1 = ata_init_drive primary_base 1 r0.0.1 r0.1 in
      let r2 = ata_init_drive secondary_base 0 r1.0.1 r1.1 in
      let r3 = ata_init_drive secondary_base 1 r2.0.1 r2.1 in (r3.0.1, r3.1)

  abbrev pub out_all : List (ℕ × ℕ) → D → D
  out_all [] d = d
  out_all ((port, value) ∷ writes) d = out_all writes (dev.outb port value d)

  -- The reading from a drive that is present.
  unfoldable pub read_present : ℕ → ℕ → D → Option (List ℕ) × D
  unfolding ata_select_drive ata_wait command_writes read_words
  read_present drive lba d =
      let base = base_of drive in
      let head = drive % 2 in
      let d1 =
        ata_wait base
          (out_all (command_writes base head lba 0x20) (ata_select_drive base head d)) in
      let r = ata_check_error base d1 in
      let words = read_words 256 base r.1 in
      if r.0 then (none, r.1) else (some (word_bytes words.0), words.1)

  -- The sector, none where the function returns -1.
  unfoldable pub ata_read_sector : List Drive → ℕ → ℕ → D → Option (List ℕ) × D
  ata_read_sector drives drive lba d =
      if_there (ata_get_drive drive drives) (read_present drive lba d) (none, d)

  unfoldable pub write_words : ℕ → ℕ → List ℕ → D → D
  write_words zero base buffer d = d
  write_words (suc n) base buffer d =
      write_words n base (drop 2 buffer)
        (dev.outw base (get_or buffer 0 0 + get_or buffer 1 0 * 2 ^ 8) d)

  -- The writing to a drive that is present.
  unfoldable pub write_present : ℕ → ℕ → List ℕ → D → Bool × D
  unfolding ata_select_drive command_writes poll write_words
  write_present drive lba buffer d =
      let base = base_of drive in
      let head = drive % 2 in
      let d1 = out_all (command_writes base head lba 0x30) (ata_select_drive base head d) in
      let r0 = dev.inb (base + 0x07) d1 in
      let r1 = poll (λ s. is_busy s || not (wants_data s)) 1000000 base r0.0 r0.1 in
      let d2 = write_words 256 base buffer r1.1 in
      let r2 = dev.inb (base + 0x07) d2 in
      let r3 = poll is_busy 1000000 base r2.0 r2.1 in
      if r1.0.0 || has_error r1.0.1
      then (false, r1.1)
      else if r3.0.0 || has_error r3.0.1
      then (false, r3.1)
      else (true, r3.1)

  -- Whether the sector is written.
  unfoldable pub ata_write_sector : List Drive → ℕ → ℕ → List ℕ → D → Bool × D
  ata_write_sector drives drive lba buffer d =
      if_there (ata_get_drive drive drives) (write_present drive lba buffer d) (false, d)
