-- ===== src/Lib.antt =====
-- Verification of the core of snek_os, a hobby operating system for x86-64 in Rust.
--
-- The program is a kernel (kernel/) with a few driver crates (crates/). Modelled here:
--
--   I8042 (crates/i8042): the driver of the PS/2 controller. `Driver8042` sets the controller up through
--     the trait `Impl`, and hands each interrupt's byte to one of two ports. A port identifies the device
--     behind it, and then passes the bytes to a keyboard or to a mouse.
--       I8042.Mouse     src/mouse.rs: `MouseKind`, `State`, `MouseState`, `Mouse::new`, `handle_data`.
--       I8042.Keyboard  src/keyboard.rs: `KeyboardKind`, `SomeKeyboard`, `State`, `Init`, `Keyboard`.
--       I8042.Port      src/lib.rs: `Change`, `EnumWaitState`, `PortState`, `Port`.
--       I8042.Driver    src/lib.rs: `Error`, `Irq`, `Impl`, `Driver8042`, its loops, `init`, `interrupt`.
--   Snalloc (crates/snalloc): the kernel's heap. Seven slab allocators of fixed cell sizes stand before
--     the heap of the `linked_list_allocator` crate, each over an eighth of the managed addresses.
--       Snalloc.Slab       `SlabAllocator::new`, `init`, `alloc`, `dealloc`, and the free list in memory.
--       Snalloc.Allocator  `Inner`, `Allocator::new`, `init`, `alloc`, `dealloc`, `stats`, and the
--         addresses that kernel/src/allocator.rs hands over (Snalloc.Allocator.Kernel).
--   Memory (kernel/src/arch/x86_64/memory.rs): the frames of the memory map, the search for a run of free
--     pages, `map_pages_from`, and `lazy_map`, by which page faults back the heap's addresses.
--       StackAllocator  kernel/src/stack_allocator.rs, which holds the list of released frames.
--   Interrupts (kernel/src/arch/x86_64/interrupts.rs): the table of handlers behind the vectors, interrupts
--     by the pins of I/O APICs and by messages, and the guards that remove them.
--       Interrupts.Handlers  `get_io_apic`, `set_interrupt`, `set_interrupt_msi`, `InterruptGuard::drop`.
--       Interrupts.Setup     `init_ioapic`.
--   Pci (kernel/src/arch/x86_64/pci.rs): the scan of the buses, through bridges.
--   Input (kernel/src/drivers/i8042.rs): the queues of key presses and mouse states, with `interrupt` at one
--     end and `next_key` at the other; Input.Steps puts their operations in any order.
--   Cmos (crates/cmos): reading the real-time clock.
--   Time (kernel/src/arch/x86_64/time.rs): `on_tick`, `now` and `timestamp`, over the registers of the HPET
--     (crates/hpet).
--   E1000 (kernel/src/drivers/e1000.rs): the network card.
--       E1000.New       `E1000::new`, `link_up`, `drop` and `init`, over the methods of `Registers`;
--         its interrupt is that of `Interrupts.Handlers.set_interrupt`.
--       E1000.Ring      `send`, `recv`, `recv_end`, `handle_irq`, `poll`, and the tokens of `Driver`.
--       E1000.Queue, E1000.System and E1000.Transmit put the card beside the driver: packets arrive, and
--         are fetched, between the driver's calls.
--   Nvme (kernel/src/drivers/nvme.rs, which the kernel does not build): solid-state drives.
--       Nvme.Queue       `Registers` and `QueuePair`.
--       Nvme.Controller  `Controller::new` and `init`.
--   Framebuffer (kernel/src/framebuffer.rs): the screen as a terminal.
--       Framebuffer.Pixel  `Display` and `write_pixel`; Framebuffer.Image  `early_init`, `write_rgba`, `draw_iter`.
--   Net (kernel/src/net/mod.rs): the addresses of the network interface, `dhcp4` and `auto6`.
--       Net.Sockets  the polls in the methods of `TcpSocket`, `IcmpSocket`, `Dhcp4Socket` and `DnsSocket`.
--
-- A method that mutates `self` is a function that returns the new state beside its result. A `u8`,
-- `u16` or `usize` is a number; where the code can wrap, `u64` and `% 2 ^ w` are written out. A failed
-- `assert!` or `unwrap` is `none`. A `Result` of the controller is an `Outcome`, which has a third
-- value for a loop that has not ended within the rounds that it was given: `wait_out` and `wait_in`
-- are given as many rounds as their own limits, which always end them, and `flush`, which has no limit
-- in the code, takes the number of rounds from its caller. Each of its rounds takes a byte out of the
-- device's buffer, so it needs one more than the buffer can hold (`I8042.Driver.Total`). The scan of
-- the PCI buses takes the depth of bridges that it goes down; a bridge leads to buses of higher
-- numbers, which are bytes, so 256 is the depth to give (`Pci.Ends`). The loops of `read_rtc` take a
-- number of rounds, of which a clock that is not being updated needs two (`Cmos.Clock`). The loops by
-- which the driver of the network card waits for it take as many rounds as the card may need
-- (`E1000.Built.IsPrompt`).
--
-- Parameters, since their code is not in the repository: the `pc_keyboard` crate
-- (`I8042.Keyboard.PcKeyboard`), the hardware behind the trait `Impl` (`I8042.Driver.Impl`), the
-- `linked_list_allocator` crate (`Snalloc.Allocator.Fallback`), the page tables of the `x86_64` crate
-- (`Memory.Paging`, with the laws `Memory.Map.Laws`), the I/O APICs of the `x2apic` crate
-- (`Interrupts.Apic`, with the laws `Interrupts.Pins.Laws`), the configuration space of PCI
-- (`Pci.Config`), the network card (`E1000.Monad.Hw`, with the laws `E1000.Queue.IsReceiver` and
-- `E1000.Transmit.IsSender`), the controller of drives (`Nvme.Queue.Hw`), the glyphs and the
-- arithmetic in floating point of the screen (`Framebuffer.Pixel.Screen`), the `smoltcp` crate
-- (`Net.Stack`, `Net.Sockets.Tcp` and the like), the queues and wakers (`Input.Crates`, with the laws
-- `Input.Steps.Laws`), and the clock's ports and the `chrono` crate (`Cmos.Ports`, `Cmos.Chrono`).
-- Locks are held through each operation, so an operation is one step; key presses and their readers
-- share no lock, so there each operation on a queue or a waker is one (`Input.Steps`). Memory that the
-- slabs use gives the word at each address; a client may write what it likes into its own cells.
--
-- Not modelled: packets that the network card spreads over several of its buffers of 4096 bytes, the
-- task executor, the timer of the PIT, the drivers of virtio devices, the task of the network
-- interface, the shell, unwinding, and the code that only sets up processor registers and tables.
pub mod Prelude
pub mod Cmos
pub mod E1000
pub mod Framebuffer
pub mod I8042
pub mod Input
pub mod Interrupts
pub mod Memory
pub mod Net
pub mod Nvme
pub mod Pci
pub mod Snalloc
pub mod StackAllocator
pub mod Time
