-- ===== src/Tests/Api.antt =====
-- Mappings over a Windows API that answers every request, or whose memory has run out.
use and_emu.Base.{ℕ, ◌+◌, ◌^◌, ◌≤◌, ◌<◌, ◌≡◌, refl, ◌⊎◌, true, arith}
use and_emu.Base.Word.{sub32, page_start, page_end, page_start_bounds}
use and_emu.Elf.{phdr_at, phdr_table}
use and_emu.Kernel.{Space, done, map_private}
use and_emu.Memory.{Memory, load32}
use and_emu.Phdr.{pflags_to_prot, get_load_size}
use and_emu.Reader.{headers, pass, reserve_address_space, load_segment}
use and_emu.Tests.Images.{data_segment, file, mappable, image_space, reader}
use and_emu.Windows.{Api, s_mmap, windows_kernel}
use and_emu.Windows.Reserve.{reserve_address_space-virtual_alloc}
use and_emu.Windows.Segment.{ReadsFile, load_segment-Loaded}

-- The runtime's position in the file is the kernel's state, and every file has 0x2000 bytes.
abbrev api : Api
api = record {
  virtual_alloc = λ size protect s. (0x30000, s);
  virtual_protect = λ a n protect s. (true, s);
  get_osfhandle = λ fd. fd;
  create_file_mapping = λ h protect high low s. (1, s);
  map_view_of_file = λ m access high low n s. (0x40000, s);
  close_handle = λ h s. s;
  unmap_view_of_file = λ a s. (true, s);
  lseek = λ fd offset s. record s { kernel = offset };
  read = λ fd n s. record { count = n; bytes = λ i. file (s.kernel + i); after = s };
  open_path = λ name flags s. done 3 s;
  close = λ fd s. s;
  call = λ f s. s;
}

abbrev exhausted : Api
exhausted = record api { virtual_alloc = λ size protect s. (0, s) }

abbrev blank : Space
blank = record { memory = λ a. 0; kernel = 0 }

reads_file : ReadsFile api 3 file 0x2000
reads_file = record {
  seeks = λ offset s. refl;
  keeps = λ n offset s. refl;
  counts = λ n offset s fits. refl;
  reads = λ n offset i s fits lt. refl;
}

-- A private mapping of a file that is not fixed is a view.
view :
    s_mmap api
      (record { start = 0; size = 0x1000; prot = 1; flags = map_private; fd = 3; offset = 0 })
      blank
    ≡ done 0x40000 blank
unfolding s_mmap
view = refl

readable : pflags_to_prot 6 ≡ 3
unfolding pflags_to_prot
readable = refl

load_segment-Loaded_example :
    (s' : Space) × (load_segment (windows_kernel api) 3 0x10000 data_segment blank ≡ done tt s')
    × ((i : ℕ) → i < 0x10 → s'.memory (0x12000 + i) ≡ file (0x1000 + i))
    × ((i : ℕ) → 0x10 ≤ i → i < 0x20 → s'.memory (0x12000 + i) ≡ 0)
    × ((a : ℕ) → a < 2 ^ 32 → (a < page_start 0x12000) ⊎ (page_end 0x12020 ≤ a) → s'.memory a ≡ 0)
load_segment-Loaded_example =
    load_segment-Loaded api 3 file 0x2000 reads_file (omega arith) 0x10000 data_segment mappable
      (omega arith) (omega (arith, page_start_bounds 0x12000)) (omega (arith, readable))
      (omega (arith, readable)) blank (λ a lo hi. refl)

size_is : (get_load_size (headers reader image_space)).size ≡ 0x1000
unfolding get_load_size page_end phdr_table and_emu.Elf.phdr_at and_emu.Memory.load32
size_is = refl

reserve_address_space-virtual_alloc_example :
    reserve_address_space (windows_kernel exhausted) reader image_space
    ≡ pass
        (record reader {
          load_size = (get_load_size (headers reader image_space)).size;
          load_start = 0;
          load_bias = sub32 0 (get_load_size (headers reader image_space)).out_min_vaddr;
        })
        image_space
reserve_address_space-virtual_alloc_example =
    reserve_address_space-virtual_alloc exhausted reader 0 image_space image_space
      (omega (arith, size_is)) refl (omega arith)
