-- ===== src/Kernel.antt =====
-- What the linker asks of the operating system, as a parameter: the calls of emulator/memory.cpp
-- and of libc, over the memory of the process and whatever else the kernel keeps.
pub mod Lasts
use and_emu.Base.{ℕ, List}
use and_emu.Memory.{Memory}

-- The kernel's own state is a number of which the program sees nothing.
pub record Space : Type 0 where
  pub memory : Memory
  pub kernel : ℕ

-- A call that may fail, with the state it leaves either way.
pub data Attempt (A : Type 0) : Type 0 where
  done : A → Space → Attempt A
  failed : Space → Attempt A

-- Goes on after a success.
abbrev pub and_then : {A B : Type 0} → Attempt A → (A → Space → Attempt B) → Attempt B
and_then (done a s) f = f a s
and_then (failed s) f = failed s

-- Goes on after a failure.
abbrev pub or_try : {A : Type 0} → Attempt A → (Space → Attempt A) → Attempt A
or_try (done a s) f = done a s
or_try (failed s) f = f s

abbrev pub space_of : {A : Type 0} → Attempt A → Space
space_of (done a s) = s
space_of (failed s) = s

-- The arguments of `s_mmap`, in its order.
pub record Mapping : Type 0 where
  pub start : ℕ
  pub size : ℕ
  pub prot : ℕ
  pub flags : ℕ
  pub fd : ℕ
  pub offset : ℕ

pub record Reading : Type 0 where
  pub count : ℕ
  pub bytes : ℕ → ℕ
  pub after : Space

pub record Kernel : Type 0 where
  -- A failure is `MAP_FAILED`.
  pub mmap : Mapping → Space → Attempt ℕ
  -- `s_mprotect` of an address, a size and a protection.
  pub mprotect : ℕ → ℕ → ℕ → Space → Attempt (Unit {0})
  pub munmap : ℕ → ℕ → Space → Space
  -- A failure is -1.
  pub open_file : List ℕ → Space → Attempt ℕ
  -- The count that `read` returns, with the bytes read at offsets 0, 1, ….
  pub read : ℕ → ℕ → Space → Reading
  pub close : ℕ → Space → Space
  -- A function of a loaded library, called at its address.
  pub call : ℕ → Space → Space

-- prot and flags of mmap, as emulator/linker.h has them.
abbrev pub prot_none : ℕ
prot_none = 0

abbrev pub prot_read : ℕ
prot_read = 1

abbrev pub prot_write : ℕ
prot_write = 2

abbrev pub prot_exec : ℕ
prot_exec = 4

abbrev pub map_private : ℕ
map_private = 0x002

abbrev pub map_fixed : ℕ
map_fixed = 0x010

abbrev pub map_anonymous : ℕ
map_anonymous = 0x0800
