-- ===== src/Ata/Tests.antt =====
-- A controller whose drives answer at once, and a disk that nothing answers for.
use hatcher.Base.{
  ℕ, zero, suc, [], length-replicate, ◌+◌, ◌%◌, ◌≡◌, arith, false, none, replicate, List,
}
use hatcher.Ata.{
  Device, command_writes, base_of, out_all, ata_init, ata_read_sector, ata_write_sector, read_words,
  write_words, word_bytes,
}
use hatcher.Ata.Drives.{ata_read_sector-ata_init}
use hatcher.Ata.Registers.{latch, Asks, command_writes-Asks}
use hatcher.Ata.Words.{queue, AreBytes, word_bytes-read_words}

-- Its status always has DRQ alone, and every word is 0x4142.
abbrev ready : Device ℕ
ready = record {
  outb = λ port value d. d;
  inb = λ port d. (8, d);
  outw = λ port value d. d;
  inw = λ port d. (0x4142, d + 1);
}

ata_read_sector_example :
    (ata_read_sector ready (ata_init ready 0).0 3 0 7 ≡ (none, 7))
    × (ata_write_sector ready (ata_init ready 0).0 3 0 (replicate 512 1) 7 ≡ (false, 7))
ata_read_sector_example = ata_read_sector-ata_init ready 3 0 (replicate 512 1) 0 7 (omega arith)

command_writes_example :
    Asks
      (base_of 3)
      (3 % 2)
      0x12345678
      0x20
      (out_all latch (command_writes (base_of 3) (3 % 2) 0x12345678 0x20) (λ port. 0))
command_writes_example = command_writes-Asks 3 0x12345678 0x20 (λ port. 0)

abbrev sector : List ℕ
sector = replicate 512 0x5A

small : (n : ℕ) → AreBytes (replicate n 0x5A)
small zero = tt
small (suc n) = (omega arith, small n)

word_bytes_example :
    word_bytes (read_words queue 256 0x1F0 (write_words queue 256 0x1F0 sector [])).0 ≡ sector
word_bytes_example =
    word_bytes-read_words 0x1F0 sector (length-replicate {A = ℕ} 512 0x5A) (small 512)
