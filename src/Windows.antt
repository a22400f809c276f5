-- ===== src/Windows.antt =====
-- The layer of emulator/memory.cpp, as built with Visual C++: mmap, mprotect, msync and munmap over
-- the Windows API, and s_open of emulator/engine.cpp. The API and the C runtime are a parameter.
pub mod Segment
pub mod Reserve
use Prim.Native.Nat.{bit_and, bit_or}
use and_emu.Base.{ℕ, Bool, true, false, ◌&&◌, ◌||◌, List, ltb, ◌==◌, ◌!=◌, if◌then◌else◌, length}
use and_emu.Base.Word.{add32, sub32, minus_one}
use and_emu.Kernel.{
  Space, Attempt, done, failed, space_of, Mapping, Reading, Kernel, prot_none, prot_read,
  prot_write, prot_exec, map_fixed, map_anonymous,
}
use and_emu.Reader.Keeps.{after}

-- What the layer calls. A handle or an address of 0 is NULL.
pub record Api : Type 0 where
  -- `VirtualAlloc(0, size, MEM_COMMIT, protect)`.
  pub virtual_alloc : ℕ → ℕ → Space → ℕ × Space
  -- `VirtualProtect` of an address and a size: whether it succeeded.
  pub virtual_protect : ℕ → ℕ → ℕ → Space → Bool × Space
  pub get_osfhandle : ℕ → ℕ
  -- `CreateFileMappingA` of a handle, a protection, and the two halves of the size.
  pub create_file_mapping : ℕ → ℕ → ℕ → ℕ → Space → ℕ × Space
  -- `MapViewOfFile` of a mapping, an access, the two halves of the offset, and a size.
  pub map_view_of_file : ℕ → ℕ → ℕ → ℕ → ℕ → Space → ℕ × Space
  pub close_handle : ℕ → Space → Space
  pub unmap_view_of_file : ℕ → Space → Bool × Space
  -- `lseek(fd, offset, SEEK_SET)`.
  pub lseek : ℕ → ℕ → Space → Space
  -- `read(fd, buffer, size)`: the count, and the bytes that go to the buffer.
  pub read : ℕ → ℕ → Space → Reading
  -- `open` of a path and flags; a failure is -1.
  pub open_path : List ℕ → ℕ → Space → Attempt ℕ
  pub close : ℕ → Space → Space
  -- A function of a library, called at its address.
  pub call : ℕ → Space → Space

-- The constants of emulator/win.h.
abbrev pub page_readonly : ℕ
page_readonly = 0x02

abbrev pub page_readwrite : ℕ
page_readwrite = 0x04

abbrev pub page_execute_read : ℕ
page_execute_read = 0x20

abbrev pub page_execute_readwrite : ℕ
page_execute_readwrite = 0x40

abbrev pub file_map_write : ℕ
file_map_write = 0x0002

abbrev pub file_map_read : ℕ
file_map_read = 0x0004

abbrev pub file_map_execute : ℕ
file_map_execute = 0x0020

-- `INVALID_HANDLE_VALUE`.
abbrev pub invalid_handle : ℕ
invalid_handle = minus_one

-- `__map_mmap_prot_page`.
unfoldable pub prot_page : ℕ → ℕ
prot_page prot =
    if prot == prot_none
    then 0
    else if bit_and prot prot_exec != 0
    then (if bit_and prot prot_write != 0 then page_execute_readwrite else page_execute_read)
    else if bit_and prot prot_write != 0
    then page_readwrite
    else page_readonly

-- `__map_mmap_prot_file`.
unfoldable pub prot_file : ℕ → ℕ
prot_file prot =
    if prot == prot_none
    then 0
    else bit_or
        (bit_or (if bit_and prot prot_read != 0 then file_map_read else 0)
          (if bit_and prot prot_write != 0 then file_map_write else 0))
        (if bit_and prot prot_exec != 0 then file_map_execute else 0)

-- What `read` puts into the buffer at an address. The layer does not look at the count.
unfoldable pub read_into : ℕ → Reading → Space
read_into buffer got = record got.after {
  memory = λ p.
      if got.count != minus_one && ltb (sub32 p buffer) got.count
      then got.bytes (sub32 p buffer)
      else got.after.memory p;
}

module _ (w : Api) where
  -- The part of s_mmap for an anonymous or fixed mapping, with the `map` that it has so far.
  unfoldable pub fill : Mapping → ℕ → Space → ℕ × Space
  unfolding read_into
  fill q map_ s =
      if map_ != 0 || q.start != 0
      then if map_ == minus_one && q.start != 0
        then (
          q.start,
          if q.fd != minus_one
              then read_into q.start (w.read q.fd q.size (w.lseek q.fd q.offset s))
              else s,
        )
        else (map_, if q.fd != minus_one then read_into map_ (w.read q.fd q.size s) else s)
      else (map_, s)

  unfoldable pub map_memory : Mapping → Space → ℕ × Space
  unfolding fill
  map_memory q s =
      if (q.fd == minus_one && q.prot == 0) || q.start == 0
      then (let (map_, s') = w.virtual_alloc q.size page_readwrite s in fill q map_ s')
      else fill q minus_one s

  -- The handle of the file, or of the paging file for an anonymous mapping.
  abbrev pub mapped_handle : Mapping → ℕ
  mapped_handle q =
      if bit_and q.flags map_anonymous == 0 then w.get_osfhandle q.fd else invalid_handle

  -- The part of s_mmap for a file. `off_t` has 32 bits, so the upper halves are 0.
  unfoldable pub map_file_view : Mapping → Space → ℕ × Space
  unfolding prot_page prot_file
  map_file_view q s =
      if bit_and q.flags map_anonymous == 0 && mapped_handle q == minus_one
      then (minus_one, s)
      else let (fm, s₁) =
          w.create_file_mapping (mapped_handle q) (prot_page q.prot) 0 (add32 q.offset q.size) s in
        if fm == 0
        then (minus_one, s₁)
        else let (map_, s₂) = w.map_view_of_file fm (prot_file q.prot) 0 q.offset q.size s₁ in
          let s₃ = w.close_handle fm s₂ in if map_ == 0 then (minus_one, s₃) else (map_, s₃)

  -- The pointer that `s_mmap` returns.
  unfoldable pub mmap_pointer : Mapping → Space → ℕ × Space
  unfolding map_memory map_file_view
  mmap_pointer q s =
      if q.size == 0 || q.prot == prot_exec
      then (minus_one, s)
      else if q.fd == minus_one || bit_and q.flags map_fixed != 0
      then map_memory q s
      else map_file_view q s

-- A caller tests the pointer against MAP_FAILED.
abbrev pub unless_failed : ℕ × Space → Attempt ℕ
unless_failed (a, s) = if a == minus_one then failed s else done a s

-- A caller tests the result against -1.
abbrev pub if_done : Bool × Space → Attempt (Unit {0})
if_done (true, s) = done tt s
if_done (false, s) = failed s

module _ (w : Api) where
  unfoldable pub s_mmap : Mapping → Space → Attempt ℕ
  unfolding mmap_pointer
  s_mmap q s = unless_failed (mmap_pointer w q s)

  unfoldable pub s_mprotect : ℕ → ℕ → ℕ → Space → Attempt (Unit {0})
  unfolding prot_page
  s_mprotect start len prot s = if_done (w.virtual_protect start len (prot_page prot) s)

  -- The size is not passed on.
  unfoldable pub s_munmap : ℕ → ℕ → Space → Attempt (Unit {0})
  s_munmap start length s = if_done (w.unmap_view_of_file start s)

  -- `O_RDONLY | _O_BINARY`.
  abbrev pub o_binary : ℕ
  o_binary = 0x8000

  -- `s_open`.
  unfoldable pub s_open : List ℕ → ℕ → Space → Attempt ℕ
  s_open path flags s = w.open_path path flags s

  -- The kernel that the linker runs on.
  unfoldable pub windows_kernel : Kernel
  unfolding s_mmap s_mprotect s_munmap s_open
  windows_kernel = record {
    mmap = λ q s. s_mmap q s;
    mprotect = λ a n p s. s_mprotect a n p s;
    munmap = λ a n s. space_of (s_munmap a n s);
    open_file = λ name s. s_open name o_binary s;
    read = λ fd n s. w.read fd n s;
    close = λ fd s. w.close fd s;
    call = λ f s. w.call f s;
  }
