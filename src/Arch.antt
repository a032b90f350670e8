-- ===== src/Arch.antt =====
-- src/colinux/arch/i386/mmu.h and the 32-bit `unsigned long` of the target: page size and masks,
-- table sizes, the guest's address map (its CO_VPTR_ constants come with the guest kernel's patch).
-- `x & CO_ARCH_PAGE_MASK` and `x & ~CO_ARCH_PAGE_MASK` are written by `/` and `%`.
use colinux_64bit.Base.{ℕ, ◌+◌, ◌-◌, ◌*◌, ◌/◌, ◌%◌, ◌^◌}

abbrev pub word : ℕ
word = 2 ^ 32

-- `unsigned long` sum and difference.
abbrev pub add32 : ℕ → ℕ → ℕ
add32 a b = (a + b) % word

abbrev pub sub32 : ℕ → ℕ → ℕ
sub32 a b = (a + word - b) % word

abbrev pub page_size : ℕ
page_size = 4096

-- `x & CO_ARCH_PAGE_MASK`
abbrev pub page_base : ℕ → ℕ
page_base x = x / page_size * page_size

-- `x & ~CO_ARCH_PAGE_MASK`
abbrev pub page_offset : ℕ → ℕ
page_offset x = x % page_size

abbrev pub ptrs_per_pte : ℕ
ptrs_per_pte = 1024

abbrev pub ptrs_per_pgd : ℕ
ptrs_per_pgd = 1024

-- CO_ARCH_KERNEL_OFFSET
abbrev pub kernel_offset : ℕ
kernel_offset = 0xc000_0000

-- CO_VPTR_PSEUDO_RAM_PAGE_TABLES
abbrev pub pseudo_ram_page_tables : ℕ
pseudo_ram_page_tables = 0xffc0_0000 - 0x110_0000

-- _PAGE_PRESENT | _PAGE_RW | _PAGE_DIRTY | _PAGE_ACCESSED, which is also _KERNPG_TABLE
abbrev pub page_flags : ℕ
page_flags = 0x001 + 0x002 + 0x040 + 0x020
