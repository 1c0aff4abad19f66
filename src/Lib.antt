-- ===== src/Lib.antt =====
-- The kernel of hatcher, a small 64-bit operating system for PC hardware: the parts that keep state or
-- compute, modelled function by function.
--
-- Base holds the shared names, lists with native indices (Base/Lists), tests (Base/Tests) and machine
-- words (Base/Int). Effect is the monad of commands on a state: a command returns, faults (it reads
-- memory that holds no such object) or runs out of the fuel of a loop.
--
-- Heap models mem/heap.c: `heap_block_t` is `Block`, the block list is the map `header` from addresses
-- to blocks, and `heap_init`, `split_block`, `kmalloc`, `kfree`, `krealloc`, `kcalloc`, `heap_used` and
-- `heap_free` are the functions of that name; `take_block`, `malloc_loop`, `merge_next`, `merge_prev` and
-- `mark_free` are parts of `kmalloc` and `kfree`. Heap/Chain relates the linked headers to a list of
-- segments, Heap/Spec is the first-fit allocator on that list, and Heap/Split, Malloc, Merge, Free and
-- Account relate the code to it; Heap/Joined, Heap/Blocks and Heap/Busy have the laws of the specification,
-- and Heap/Client what a caller sees. The bytes of the heap are a map of their own: a header that
-- `split_block` writes into a free block does not show among them. A loop over the list has a round for each byte of the heap and one more, which is enough
-- as each block has a header.
--
-- Thread models kernel/thread.c: the array `threads` is a list, `current` an index. `thread_schedule`
-- is cut into the scan that wakes sleepers (`wake_all`), the search (`next_ready`) and the switch
-- (`switch_to`). `timer_interrupt` is `timer_isr_wrapper` of cpu/timer.c. `thread_create` allocates with
-- the model of the heap. Thread/Invariant and Thread/Steps state what holds between calls,
-- Thread/Search, Thread/Schedule and Thread/RoundRobin say which thread runs next, Thread/Sleep is about
-- sleeping, and Thread/Lookup about the calls that take a thread id. `context_switch` is assembly: what is
-- modelled is that it returns to the thread that is switched to.
--
-- Text models libc/string.c: a C string is the list of its bytes before the NUL, and a pointer into it
-- what is left of the list; `memcpy`, `memmove`, `memset` and `memcmp` work on memory, a function of the
-- address. `atoi_digits` keeps the result as a 32-bit word. The loops end with the text or with the
-- count that the code itself has; `strtok` takes its static pointer `last` as an argument and returns it.
--
-- Keyboard models drivers/in/ps2.c: the static variables are the record `Keyboard`, the interrupt is
-- `keyboard_handler` with the scancode that the port gives. `kgetch` takes the scancodes that arrive
-- during each `thread_yield` of its loop, `kgets_loop` the characters that `kgetch` returns.
--
-- Console models the screen of drivers/video/vga_default.c: the bytes of video memory by their offset,
-- the two cursor registers behind the ports, and the colour that `kprint` keeps. `putchar` is cut into
-- `new_line`, `put_plain` and `move_back`; the loops of `scroll_line` count rows and columns. The lock
-- of `kprint` is left out. `kprint_loop` passes over the rest of a colour code with a count.
--
-- Format models `kprintf`, `kvprintf` and `snprintf` of the same file: `format_round` is one round of
-- the loop of the first two, which differ in the letter l only, and `convert` its `switch`. The loops
-- run on fuel, one round for each character of the format and one more. `int_to_str` has ten rounds
-- for the digits of an `int`.
--
-- Hex models the other writers of that file (`kprint_hex`, `kprintc`, `kprinti`, the direct writes to
-- video memory) and, of kernel/utils.c, `hexstr_to_bytes` and `fat_name_from_string`.
--
-- Fat models drivers/fs/fat32.c with the structures of include/fat32.h. A drive is a function from sector
-- numbers to sectors, none for a sector that `ata_read_sector` and `ata_write_sector` return an error
-- for, and the static variables are the record `Fs` of Fat/Alloc, or the parts of it that a function reads.
-- `kmalloc` is a Boolean argument, whether it returns a block. Fat itself has the names,
-- `fat32_cluster_to_lba` and `fat32_get_next_cluster` with its cache; Fat/Read `fat32_read_file`; Fat/Dir
-- `fat32_read_dir` and `fat32_list_dir`, which share the loops over clusters, sectors and entries
-- (`visit_clusters`, `visit_sectors`, `visit_entries`) and differ in what they do with an entry
-- (`read_entry`, `list_entry`); Fat/Alloc `find_free_cluster` and `fat_write_fat_entry`; Fat/Path
-- `fat32_resolve_path` and `fat32_change_dir`; Fat/Create `make_sfn`, `fat32_create_file` and
-- `fat32_create_dir`; Fat/Mount `fat32_mount`; Fat/WriteFile `fat32_write_file_data`. Reading a file has one
-- round for each byte and one more; the walks along a chain of clusters take their fuel as an argument,
-- since the chain on the drive may be a circle, and more rounds than the chain has clusters are
-- enough.
--
-- Fat/CreateFs models `fat32_create_fs` by the list of the fields that it stores in each sector.
--
-- Shell models, of user/shell.c, the environment (`set_env_var`, `get_env_var`) as a list of names and
-- values, and `expand_variables`, whose loop has one round for each character of the line and one more;
-- Shell/Grammar says what text a line with variables stands for.
--
-- Clock models, of kernel/tasks/gui.c, the rounds of `calc_time` and `calculate_cpu_usage`, which takes the
-- name of the current thread.
--
-- Cpu models the tables that the processor and devices read: `gdt_set_entry`, `gdt_init` and
-- `gdt_set_tss_entry` of kernel/gdt.c, `idt_set_gate`, `idt_init` and `isr_dispatch` of cpu/idt.c, the
-- writes to ports and the masks of cpu/8259a.c, `paging_map_page` of mem/paging.c, and the
-- reads of the configuration space in drivers/pci/pci.c, for devices below 32 and functions below 8.
--
-- Ata models drivers/storage/ata.c over the operations of the ports, which are the record `Device`: the
-- loops that wait for a status have the count of the code, `identify` and `answered` are parts of
-- `ata_init_drive`, `read_present` and `write_present` what `ata_read_sector` and `ata_write_sector` do for a
-- drive that is present. The stores behind the arrays of `ata_drive_t` go to the fields behind them. Ata/Drives
-- says which drives are found, Ata/Registers what a command leaves in the registers, and Ata/Words is about
-- the data port. Of that file, `read_device_info` and `ata_identify_device`, which nothing calls, are left out.
--
-- Not modelled: the loop of `paging_init`, the commands of the shell, which print, the boot code and the other assembly, the
-- drivers that only access ports, and the sample programs.
pub mod Base
pub mod Effect
pub mod Heap
pub mod Text
pub mod Thread
pub mod Ata
pub mod Clock
pub mod Console
pub mod Cpu
pub mod Fat
pub mod Format
pub mod Hex
pub mod Keyboard
pub mod Shell
