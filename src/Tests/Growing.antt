-- ===== src/Tests/Growing.antt =====
-- Libraries found, loaded and closed on a kernel that maps each range behind all before it.
use Prim.Native.Nat.{bit_and}
use and_emu.Base.{
  ℕ, ◌+◌, ◌*◌, ◌<◌, ◌≡◌, refl, ap, inl, inr, true, [], ◌∷◌, arith, ◌==◌, ◌!=◌, if◌then◌else◌,
  Bool-cases,
}
use and_emu.Base.Exec.{Exec, ok, fault, spin}
use and_emu.Base.Text.{codes}
use and_emu.Base.Word.{page_offset, page_end}
use and_emu.Dlfcn.{s_dlopen, s_dlclose}
use and_emu.Dlfcn.Sessions.{opens, closes, Reached, start, onward, Headed, session-Headed}
use and_emu.Elf.{phdr_at, phdr_table, dyn_at, ehdr_at}
use and_emu.Kernel.{Space, Attempt, done, space_of, Mapping, Kernel, map_fixed, map_anonymous}
use and_emu.Libdl.{Tables, libdl_info, initial_linker}
use and_emu.Library.{
  open_library, load_library, load_needed, relocate_image, seal_image, link_image,
  find_library_internal, find_library,
}
use and_emu.Library.Growth.{find_library-Searched}
use and_emu.Library.Linking.{Searched}
use and_emu.Lifetime.{
  call_destructors, each_needed, call_constructors, unload_last, soinfo_unload, do_dlclose,
  do_dlopen,
}
use and_emu.Memory.{load8, load16, load32}
use and_emu.Phdr.{get_load_size}
use and_emu.Reader.{header_ok, check_phdr, phdr_address}
use and_emu.Register.{
  sizeof_pool, pool_mapping, soinfo_alloc, find_prev, unlink, soinfo_free, after_slash, basename,
  find_loaded_library,
}
use and_emu.Register.Placed.{KeepsPools, IsPlaced}
use and_emu.SoInfo.{update, Linker}
use and_emu.Tests.Images.{with_pages}
use and_emu.Tests.Libraries.{register}
use and_emu.Tests.Loading.{elf_file}
use and_emu.Tests.Sample.{memory, linker, kernel}

-- What lies below the next pool is held.
abbrev pub Below : ℕ → ℕ → Type 0
Below next x = x < next

-- A library with one segment and a dynamic section that names a hash table, strings and symbols.
abbrev so_file : ℕ → ℕ
so_file i =
    if i == 44
    then 2
    else if i == 0x34
    then 1
    else if i == 0x45
    then 1
    else if i == 0x49
    then 1
    else if i == 0x4c
    then 5
    else if i == 0x54
    then 2
    else if i == 0x5c
    then 0x80
    else if i == 0x68
    then 0x20
    else if i == 0x80
    then 4
    else if i == 0x84
    then 0xc0
    else if i == 0x88
    then 5
    else if i == 0x8c
    then 0xd0
    else if i == 0x90
    then 6
    else if i == 0x94
    then 0xe0
    else if i == 0xc0
    then 1
    else elf_file i

abbrev growing_mmap : Mapping → Space → Attempt ℕ
growing_mmap q s =
    if bit_and q.flags map_fixed != 0
    then done q.start (with_pages q s so_file)
    else if bit_and q.flags map_anonymous != 0
    then done s.kernel (record s { kernel = s.kernel + q.size * 0x1000 })
    else done 0x7000 (with_pages (record q { start = 0x7000 }) s so_file)

abbrev pub growing_kernel : Kernel
growing_kernel = record kernel {
  mmap = growing_mmap;
  read = λ fd n s. record { count = n; bytes = so_file; after = s };
}

growing_mmap-Below :
    (q : Mapping) (s : Space) (x : ℕ)
    → Below s.kernel x
    → Below (space_of (growing_mmap q s)).kernel x
growing_mmap-Below q s x held = elim (Bool-cases (bit_and q.flags map_fixed != 0)) [
  | inl fixed ↦ rw fixed held
  | inr free ↦ elim (Bool-cases (bit_and q.flags map_anonymous != 0)) [
    | inl anonymous ↦ rw (free, anonymous) (omega arith)
    | inr from_file ↦ rw (free, from_file) held
  ]
]

mapped_pool :
    (s s' : Space) (pool : ℕ)
    → growing_mmap pool_mapping s ≡ done pool s'
    → (s.kernel ≡ pool) × (s.kernel + sizeof_pool * 0x1000 ≡ s'.kernel)
mapped_pool s s' pool e =
    let run : done s.kernel (record s { kernel = s.kernel + sizeof_pool * 0x1000 }) ≡ done pool s' =
      e in
    let after : record s { kernel = s.kernel + sizeof_pool * 0x1000 } ≡ s' = cc in
    (cc, ap (λ (t : Space). t.kernel) after)

pub keeps_pools : KeepsPools growing_kernel Below
keeps_pools = record {
  lasting = λ x. record {
    mmap_lasts = λ q s held. growing_mmap-Below q s x held;
    mprotect_lasts = λ a n prot s held. held;
    munmap_lasts = λ a n s held. held;
    open_lasts = λ name s held. held;
    read_lasts = λ fd n s held. held;
    close_lasts = λ fd s held. held;
    call_lasts = λ f s held. held;
  };
  apart = λ s s' pool x e held. let at = mapped_pool s s' pool e in inl (omega arith);
  added = λ s s' pool x e from to. let at = mapped_pool s s' pool e in omega arith;
}

abbrev linker_of : Exec (ℕ × Linker) → Linker
linker_of (ok r) = r.1
linker_of fault = linker
linker_of spin = linker

-- The process of three libraries, with a free entry.
abbrev roomy : Linker
roomy = record linker { space = record { memory = memory; kernel = 0x20000 } }

roomy-IsPlaced : IsPlaced Below roomy (0x2000 ∷ 0x3000 ∷ []) (0x4000 ∷ [])
roomy-IsPlaced = (register, (λ x m. ground arith))

abbrev finding : Exec (ℕ × Linker)
finding = find_library growing_kernel 16 [] [] 2 (codes "/c.so") roomy

found_new : finding ≡ ok (0x4000, linker_of finding)
unfolding find_library find_library_internal find_loaded_library load_library link_image load_needed
    seal_image relocate_image basename after_slash open_library header_ok ehdr_at load8 load32
    load16 get_load_size page_end phdr_table phdr_at page_offset phdr_address check_phdr update
    soinfo_alloc dyn_at
found_new = refl

find_library-Searched_example :
    Searched Below roomy (0x2000 ∷ 0x3000 ∷ []) (0x4000, linker_of finding)
find_library-Searched_example =
    find_library-Searched growing_kernel Below keeps_pools 16 [] [] 2 (codes "/c.so") roomy
      (0x2000 ∷ 0x3000 ∷ []) (0x4000 ∷ []) (0x4000, linker_of finding) roomy-IsPlaced found_new

-- A process that opens the library and closes it again.
abbrev pub no_tables : Tables
no_tables = record {
  strings = 0x1100;
  symbols = 0x1200;
  buckets = 0x1300;
  chains = 0x1400;
  dlopen = 0x1500;
  dlclose = 0x1510;
  dlsym = 0x1520;
  dlerror = 0x1530;
  dladdr = 0x1540;
  cxa_begin_cleanup = 0;
  cxa_call_unexpected = 0;
  dl_unwind_find_exidx = 0x1550;
}

abbrev pub early : Space
early = record { memory = λ a. 0; kernel = 0x20000 }

abbrev opening : Exec (ℕ × Linker)
opening =
    s_dlopen growing_kernel true 16 [] [] 2 (codes "/c.so") 1
      (initial_linker no_tables 0x1000 early)

abbrev ended : Exec Linker → Linker
ended (ok l) = l
ended fault = linker
ended spin = linker

opens_new : opening ≡ ok (0x102_0004, linker_of opening)
unfolding find_library find_library_internal find_loaded_library load_library link_image load_needed
    seal_image relocate_image basename after_slash open_library header_ok ehdr_at load8 load32
    load16 get_load_size page_end phdr_table phdr_at page_offset phdr_address check_phdr update
    soinfo_alloc dyn_at s_dlopen do_dlopen call_constructors each_needed
opens_new = refl

abbrev closing : Exec Linker
closing = s_dlclose growing_kernel true 16 2 0x102_0004 (linker_of opening)

closes_new : closing ≡ ok (ended closing)
unfolding find_library find_library_internal find_loaded_library load_library link_image load_needed
    seal_image relocate_image basename after_slash open_library header_ok ehdr_at load8 load32
    load16 get_load_size page_end phdr_table phdr_at page_offset phdr_address check_phdr update
    soinfo_alloc dyn_at s_dlopen do_dlopen call_constructors each_needed do_dlclose soinfo_unload
    unload_last call_destructors soinfo_free find_prev unlink
closes_new = refl

reached :
    Reached growing_kernel Below true [] [] (initial_linker no_tables 0x1000 early) (ended closing)
reached =
    onward
      (onward start (opens {l' = linker_of opening} 16 2 1 (codes "/c.so") 0x102_0004 opens_new))
      (closes {l' = ended closing} 16 2 0x102_0004 closes_new)

session-Headed_example :
    Headed growing_kernel Below true [] [] 0x1000 (libdl_info no_tables) (ended closing)
session-Headed_example =
    session-Headed growing_kernel Below true [] [] keeps_pools no_tables 0x1000 early
      (ended closing) (λ (e : 0x1000 ≡ 0). omega arith) (omega arith) reached
