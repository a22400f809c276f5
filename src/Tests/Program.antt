-- ===== src/Tests/Program.antt =====
-- main, on a kernel that has every file, and on one that has none.
use and_emu.Base.{ℕ, ◌≡◌, refl, true, List, [], ◌∷◌}
use and_emu.Base.Exec.{Exec, ok, fault, spin}
use and_emu.Base.Text.{codes}
use and_emu.Dlfcn.{s_dlopen}
use and_emu.Emulator.Program.{system_names, load_android_so, open_each, main}
use and_emu.Emulator.Program.Outcome.{main-unchecked}
use and_emu.Libdl.{initial_linker}
use and_emu.Library.{
  has_slash, open_library_on_path, open_library, load_library, find_library_internal, find_library,
}
use and_emu.Lifetime.{is_one_of, do_dlopen}
use and_emu.Register.{after_slash, basename, same_name, find_loaded_library}
use and_emu.SoInfo.{Linker}
use and_emu.Tests.Growing.{growing_kernel, no_tables, early}
use and_emu.Tests.Lives.{empty_disk}
use and_emu.Tests.Machine.{counting, registers, hooks}
use and_emu.Tests.Sample.{linker}

abbrev search_path : List (List ℕ)
search_path = codes "/system/lib" ∷ []

abbrev whole_run : Exec (Linker × ℕ)
whole_run =
    main growing_kernel true 24 2 search_path [] counting registers hooks 0x9_0000 0
      (initial_linker no_tables 0x1000 early) 7

abbrev at_end : Exec (Linker × ℕ) → Linker × ℕ
at_end (ok r) = r
at_end fault = (linker, 0)
at_end spin = (linker, 0)

abbrev no_libraries : Exec Linker
no_libraries =
    open_each empty_disk true 24 2 search_path [] system_names
      (initial_linker no_tables 0x1000 early)

abbrev linker_at : Exec Linker → Linker
linker_at (ok l) = l
linker_at fault = linker
linker_at spin = linker

none_opens : no_libraries ≡ ok (linker_at no_libraries)
unfolding open_each s_dlopen do_dlopen find_library find_library_internal find_loaded_library
    load_library basename after_slash open_library open_library_on_path has_slash same_name
    is_one_of
none_opens = refl

none_loads :
    load_android_so empty_disk true 24 2 search_path []
      (codes "libsgmainso-6.0.71.so")
      (linker_at no_libraries)
    ≡ ok (0, linker_at no_libraries)
unfolding open_each load_android_so s_dlopen do_dlopen find_library find_library_internal
    find_loaded_library load_library basename after_slash open_library open_library_on_path
    has_slash same_name is_one_of
none_loads = refl

main-unchecked_example :
    main empty_disk true 24 2 search_path [] counting registers hooks 0x9_0000 0
      (initial_linker no_tables 0x1000 early)
      7
    ≡ fault
main-unchecked_example =
    main-unchecked empty_disk true 24 2 search_path [] counting registers hooks 0x9_0000 0 7
      (initial_linker no_tables 0x1000 early) (linker_at no_libraries) (linker_at no_libraries)
      none_opens none_loads refl
