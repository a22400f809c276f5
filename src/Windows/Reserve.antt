-- ===== src/Windows/Reserve.antt =====
-- ReserveAddressSpace over the Windows API.
use Prim.Native.Nat.{bit_or}
use and_emu.Base.{ℕ, ◌≡◌, ◌≢◌, false, arith, ◌==◌}
use and_emu.Base.Word.{sub32, minus_one}
use and_emu.Kernel.{Space, done, prot_none, map_private, map_anonymous}
use and_emu.Phdr.{get_load_size}
use and_emu.Reader.{ElfReader, headers, pass, reserve_address_space}
use and_emu.Windows.{Api, page_readwrite, windows_kernel}

-- VirtualAlloc asks for the size alone, so the wanted address counts for nothing.
mmap_reserve :
    (w : Api) (start size a : ℕ) (s s' : Space)
    → size ≢ 0
    → w.virtual_alloc size page_readwrite s ≡ (a, s')
    → a ≢ minus_one
    → (windows_kernel w).mmap
        (record {
          start = start;
          size = size;
          prot = prot_none;
          flags = bit_or map_private map_anonymous;
          fd = minus_one;
          offset = 0;
        })
        s
      ≡ done a s'
unfolding windows_kernel
mmap_reserve w start size a s s' some_pages given valid = ground (arith, some_pages, valid, given)

-- If there is something to load, ReserveAddressSpace over the Windows API succeeds with whatever
-- address other than MAP_FAILED VirtualAlloc answers, so also with NULL, by which VirtualAlloc says
-- that it has failed; the load bias is then that address less the lowest of the segments'.
pub reserve_address_space-virtual_alloc :
    (w : Api) (r : ElfReader) (a : ℕ) (s s' : Space)
    → (get_load_size (headers r s)).size ≢ 0
    → w.virtual_alloc (get_load_size (headers r s)).size page_readwrite s ≡ (a, s')
    → a ≢ minus_one
    → reserve_address_space (windows_kernel w) r s
      ≡ pass
          (record r {
            load_size = (get_load_size (headers r s)).size;
            load_start = a;
            load_bias = sub32 a (get_load_size (headers r s)).out_min_vaddr;
          })
          s'
unfolding reserve_address_space
reserve_address_space-virtual_alloc w r a s s' some_pages given valid =
    let full : ((get_load_size (headers r s)).size == 0) ≡ false = ground (arith, some_pages) in
    rw (
      full,
      mmap_reserve w (get_load_size (headers r s)).out_min_vaddr (get_load_size (headers r s)).size
          a s s' some_pages given valid,
    )
