-- ===== src/Lib.antt =====
-- Tauos, a kernel for AMD64: a model of its memory allocator, of what that stands on,
-- of its page tables and descriptor tables, and of its output to the screen and the serial port.
--
-- The kernel's allocator (kernel/src/memm/talloc.rs) is a buddy allocator. It keeps an array of
-- sentinels, one circular linked list of free blocks for each granularity
-- (kernel/src/utils/llist.rs), a word of availability bits with one bit for each list, and a bitmap
-- with one bit for each pair of buddies, and computes granularities and sizes by counting leading
-- zeros (kernel/src/utils/mod.rs).
--
-- Files:
--   Base: the names shared by all files; Boolean tests, lists and induction on native numbers.
--   Bits: the `usize` operations with their wrap-around, and the bits of and, or, xor, masks.
--   Utils: kernel/src/utils/mod.rs. `fast_non0_log2`, `fast_non0_prev_pow2`, `fast_non0_next_pow2`
--     keep their names.
--   Llist: kernel/src/utils/llist.rs. Memory is a function from addresses to nodes. `new_llist`,
--     `new`, `mov`, `remove`, `relink` and `iter_mut` are the methods of `LlistNode`; `iter_next`
--     and `iter_next_back` are the methods of `IterMut`. Links states what list of nodes a
--     sentinel stands for.
--   Talloc: kernel/src/memm/talloc.rs. The record `Talloc` has the fields of the struct, less the
--     handler, and `State` adds memory. The bookkeeping methods keep their names. Talloc.Alloc has
--     `alloc` (its loops are `grow_arena`, `find_larger` and `split_blocks`), `dealloc` (its loop
--     is `merge`) and `shrink`. Arena and Offsets say where blocks and their bits lie. Books
--     relates the state to ghost lists of the free blocks, and Regions adds that free blocks do
--     not overlap and views the free memory as a set of addresses: `Covers`.
--   Talloc.Release and Talloc.Extend: the rest of that file up to the lock. `release_blocks` is the
--     loop of `release`; `slice_bytes`, `new_invalid`, `req_free_mem`, `extend` and `new` keep their
--     names, and the parts of `extend` are `extend_fits` (its assertions), `take_over` with
--     `move_llists` and `copy_fields` (what it takes from the old status data), and `release_old`.
--     Span, Rounds, Spans, Loops and Releases follow the loop of `release`; Fresh, Setup, Status and
--     New follow construction.
--   Talloc.Heap: what the allocator promises, with no free lists and no bitmap: given memory and
--     allocated blocks, and the steps between such heaps. Represents relates a state to a heap,
--     Runs is about single operations, and Reach about the sequences of calls from `new` on.
--   Talloc.Tallock: the traits that `Tallock` implements, with a record of the accesses that they
--     make to the bytes of blocks; `shrink_block` is `Allocator::shrink`.
--     Client and the files named Examples run the theorems on an arena of 128 bytes.
--   Utils.Copy: `copy_slice_bits` of kernel/src/utils/mod.rs, on lists of bytes.
--   Paging: amd64/src/paging.rs. Functions and constants keep their names, in lower case. A page
--     table entry (`PTE`) is its bits. `Pat::read` and `Pat::write` become functions from and to
--     the value of the register.
--   Mapping: kernel/src/memm/mod.rs. The page tables are a function from physical addresses to
--     entries; `page_getter` is a parameter that hands out pages from a state, which `alloc_phys`
--     fills with the allocator. `map_entries` is the loop of `map_offset`, with fuel for the 512
--     entries of a table; `map_span` is `Mapper::map`, `Mapped` the struct `Mapping`.
--   Boot: kernel/src/bootboot.rs, the memory map and the configuration text. Physical memory is a
--     parameter with its two accesses; `check_entries` is the loop that tests the free entries.
--   Privilege: amd64/src/lib.rs, the privilege levels.
--   Interrupts: amd64/src/interrupts.rs. Interrupts.IntTrapGate and Interrupts.CallGate have the
--     two kinds of gates, Interrupts.Idt the table; the methods keep their names, and a failed
--     assertion or a type that does not exist is `none`.
--   Segmentation: amd64/src/segmentation.rs, segment descriptors and their table.
--     `insert_user` and `insert_sys` are the loops of the two cases of `try_insert_into_gdt`; their
--     fuel grows with the table. Segmentation.Fields has the selectors (`SegSel`, as bits) and the
--     base of a system segment descriptor, Segmentation.System its other fields; the methods keep
--     their names.
--   Ports: amd64/src/ports.rs. A step that may access ports is a function on the history of all
--     accesses; the hardware is a parameter that answers a read from that history.
--   UartFlags and Uart: kernel/src/out/uart.rs, the flags of the registers and the methods of
--     `UartPort`, which keep their names. The loops that wait for a flag have fuel.
--   Screen: kernel/src/out/framebuffer.rs. Memory from the buffer's start on is a function from
--     offsets to bytes; Screen.Paint has the loops over rectangles.
--   Font: kernel/src/utils/psf.rs, a font file as a list of bytes.
--   Terminal: kernel/src/out/terminal.rs. `wrapped` and `draw` are the two halves of `write_char`.
--
-- Bounds and fuel: addresses and sizes are `usize`, with wrap-around written out. `IsArena` asks
-- for an arena of 2 ^ K bytes with K below 63, which the source's limit of 2 ^ 48 ensures. The
-- loop of `dealloc` climbs one granularity a round, so the 64 rounds it is given are enough. The
-- loops of `alloc` that call the handler can run for ever with a handler that succeeds without
-- releasing anything; their fuel is a parameter, and `out_of_fuel` is a result of its own.
--
-- The blocks of an arena lie in the lower half of the aligned span of 2 ^ (K + 1) bytes that holds
-- the arena's base: in an arena that crosses the middle of that span, pairs of different
-- granularities could share a bit of the bitmap, and the predicate `IsBlock` excludes it.
--
-- The handler for a lack of memory is a parameter: a function from the state and the layout to the
-- new state and whether it succeeded. The bitmap's bytes are a list of the record, since the memory
-- behind it is reserved for it; reads out of its range give 0.
--
-- The loop of `write_byte` waits for the hardware for ever; the model gives each byte the same fuel,
-- and the theorem asks of the hardware that it answers within it.
--
-- The loop of `release` has 130 rounds: while sizes grow, the count of trailing zeros of the start
-- grows with each round and is below 64, and while they fall, so does the exponent of the size.
-- `release` calls itself on the parts beside the null block, which do not hold it: two levels are
-- enough. Its theorems are about memory beside the null block, in an arena that ends below 2 ^ 62 or
-- begins at 2 ^ 63 or above, so that signed and unsigned addresses have one order. A call of `alloc` in Reach finds a free block, or
-- its handler refuses and leaves the state as it is.
--
-- Modelled without a theorem: `extend` of an arena that is in use, and `copy_slice_bits`.
--
-- Not modelled: the lock around the allocator, the bytes that programs keep in allocated blocks, the
-- task state segment, `map_offset_at`, the iterator over mapped pages, and the parts that only drive
-- hardware: the set-up of the mapper, the instructions on registers and the boot sequence. The files
-- under old/ belong to no crate.
pub mod Base
pub mod Bits
pub mod Boot
pub mod Font
pub mod Interrupts
pub mod Llist
pub mod Mapping
pub mod Paging
pub mod Ports
pub mod Privilege
pub mod Screen
pub mod Segmentation
pub mod Talloc
pub mod Terminal
pub mod Uart
pub mod UartFlags
pub mod Utils
