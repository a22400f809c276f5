-- ===== src/Lib.antt =====
-- A verification library for the dynamic linker of and-emu, which loads Android shared libraries for
-- ARM into a 32-bit process.
--
-- The parts, and where they are modelled:
-- Memory, Base.Word: the address space as a function from addresses to bytes, and the arithmetic of
--   32-bit words, whose wrap is written out (the macros PAGE_START, PAGE_OFFSET and PAGE_END of
--   emulator/linker.h).
-- Elf: the structures and constants of emulator/elf.h, read field by field from memory.
-- Kernel: what the linker asks of the operating system, as a record of functions over the state of
--   the process: mmap, mprotect, munmap, open, read, close, and the call of a function of a library.
--   A theorem that needs more of it names that as a hypothesis (Reader.Segment.MapsFixed,
--   Reader.Reserve.Reserves, Phdr.Protect.KeepsBytes, Lifetime.Reopen.NeverRefuses,
--   Register.Placed.KeepsPools: a pool of soinfo objects is mapped apart from those before, and
--   stays). Kernel.Lasts is about what every call keeps.
-- SoInfo: `struct soinfo` of emulator/linker.h and the global variables of emulator/linker.cpp. The
--   soinfo objects are a function of their addresses, apart from the byte memory; 0 is NULL.
-- Phdr: the functions phdr_table_* of emulator/linker_phdr.cpp.
-- Reader: the class ElfReader of emulator/linker_phdr.cpp; `Reader.load` is ElfReader::Load, whose
--   steps are functions from the reader and the process to an outcome.
-- Symbol: soinfo_elf_lookup, soinfo_do_lookup, the lookups of dlsym, and the searches by address of
--   emulator/linker.cpp.
-- Reloc: soinfo_relocate, as built for ARM.
-- Register: the pools of soinfo objects, soinfo_alloc, soinfo_free and find_loaded_library.
--   Register.Libraries.IsRegister is the invariant of the list of libraries and the free list, and
--   Register.Placed adds that all entries lie in pools.
-- Dynamic: the loop of soinfo_link_image over the dynamic section, and its sanity checks.
-- Library: open_library, load_library, soinfo_link_image and find_library. soinfo_link_image takes
--   the search for a dependency as an argument, and find_library ties the knot. Library.Loading,
--   Library.Needed, Library.Linking, Library.Image and Library.Growth follow the register through
--   the steps of a search.
-- Lifetime: CallFunction, CallArray, CallConstructors, CallDestructors, soinfo_unload, do_dlopen and
--   do_dlclose. Lifetime.Respects carries a relation through constructors and destructors;
--   Lifetime.Kept, Lifetime.Opened and Lifetime.Closed follow the register; Lifetime.Fresh,
--   Lifetime.Calls, Lifetime.Alike and Lifetime.Returns are about what ends.
-- Dlfcn: s_dlopen, s_dlclose, s_dlsym and s_dladdr of emulator/dlfcn.cpp. Dlfcn.Sessions has the
--   steps of a process that uses them.
-- Libdl: the static tables of libdl.so in emulator/dlfcn.cpp, and the linker as the program starts.
-- Windows: s_mmap, s_mprotect and s_munmap of emulator/memory.cpp and s_open of emulator/engine.cpp,
--   as built with Visual C++. The Windows API and the C runtime are the parameter Windows.Api, and
--   Windows.windows_kernel is the Kernel that they make up.
-- Engine: s_strlcpy of emulator/engine.cpp.
-- Emulator: start_vm of emulator/emulator.cpp, over the unicorn engine as a parameter, and main in
--   Emulator.Program.
-- Base: shared names, lists, and the combinator `scan` for a loop along a linked list that returns
--   at the first hit. Tests: the theorems at concrete inputs.
--
-- A piece of code that may crash or loop is a value of `Exec`: `ok` of a result, `fault` for the
-- dereference of a null pointer, a division by zero or abort, `spin` where the fuel is used up. Fuel
-- bounds the length of a linked list, of a dynamic section and of a string; where the list is
-- well-formed, more fuel than it has nodes is enough, which the theorems on the loops state. Depth
-- bounds the recursion through dependencies. Traces (debug_printf) are left out but for the pointers
-- that they read.
--
-- Not modelled: the branches of emulator/memory.cpp for other systems, which pass the call on; the
-- hooks of emulator/emulator.cpp and the helpers of emulator/linker.cpp that only print or that
-- nothing calls; dl_iterate_phdr and the other parts of the code for x86 and MIPS, which the build
-- leaves out; and unmapped memory: a read of an address that is not mapped is not told apart from a
-- read of a byte. The table of program headers is a mapping of its own, which LoadSegments does not
-- write. A function of a library that is called may change memory but not the register.
pub mod Base
pub mod Memory
pub mod Elf
pub mod Kernel
pub mod Windows
pub mod SoInfo
pub mod Symbol
pub mod Reloc
pub mod Phdr
pub mod Reader
pub mod Register
pub mod Dynamic
pub mod Library
pub mod Lifetime
pub mod Dlfcn
pub mod Libdl
pub mod Engine
pub mod Tests
pub mod Emulator
