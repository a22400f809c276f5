-- ===== src/Tests/Lives.antt =====
-- Constructors, destructors, and a library opened twice.
use and_emu.Base.{ℕ, suc, ◌≡◌, refl, true, false, none, some, [], ◌∷◌, ◌++◌, reverse, arith}
use and_emu.Base.Exec.{ok}
use and_emu.Base.Text.{codes}
use and_emu.Kernel.{Space, failed, Kernel}
use and_emu.Library.{open_library}
use and_emu.Lifetime.{call_destructors, call_init, call_constructors, do_dlclose, do_dlopen}
use and_emu.Lifetime.Constructed.{IsConstructed, call_constructors-once}
use and_emu.Lifetime.Missing.{Untouched, do_dlopen-Untouched}
use and_emu.Lifetime.Order.{
  functions_at, call_list, call_destructors-call_list, call_init-call_list,
}
use and_emu.Lifetime.Reopen.{IsOpen, do_dlopen-do_dlclose}
use and_emu.Memory.{Memory, load32}
use and_emu.Register.{find_loaded_library}
use and_emu.SoInfo.{SoInfo, update, Linker}
use and_emu.Tests.Sample.{memory, with_symbol, infos, linker, kernel}

-- With two functions to call at the start and two at the end.
abbrev living : SoInfo
living = record with_symbol {
  init_func = 0xa100;
  init_array = 0x6000;
  init_array_count = 2;
  fini_array = 0x6000;
  fini_array_count = 2;
  fini_func = 0xa200;
}

abbrev lively : Linker
lively = record linker { infos = update infos 0x2000 living }

call_destructors-call_list_example :
    call_destructors kernel true 0x2000 lively
    ≡ call_list kernel true
        (reverse (
            functions_at memory
              (lively.infos 0x2000).fini_array
              (lively.infos 0x2000).fini_array_count)
          ++ (lively.infos 0x2000).fini_func ∷ [])
        lively
call_destructors-call_list_example =
    call_destructors-call_list kernel true ((λ f s. refl), (λ a n p s. refl)) 0x2000 lively

call_init-call_list_example :
    call_init kernel true 0x2000 lively
    ≡ call_list kernel true
        ((lively.infos 0x2000).init_func
          ∷ functions_at memory
              (lively.infos 0x2000).init_array
              (lively.infos 0x2000).init_array_count)
        lively
call_init-call_list_example =
    call_init-call_list kernel true ((λ f s. refl), (λ a n p s. refl)) 0x2000 lively

-- A library without constructors yet.
abbrev young : Linker
young = record linker {
  infos = update infos 0x2000 (record living { constructors_called = false });
}

abbrev grown : Linker
grown = record young {
  infos = update young.infos 0x2000 (record (young.infos 0x2000) { constructors_called = true });
}

grows : call_constructors kernel true 8 3 0x2000 young ≡ ok grown
unfolding call_constructors and_emu.Memory.load32
grows = refl

call_constructors-once_example :
    ((depth' other : ℕ) (l2 : Linker)
      → call_constructors kernel true 8 depth' other grown ≡ ok l2
      → (q : ℕ) → IsConstructed grown q
      → IsConstructed l2 q)
    × ((depth' : ℕ) → call_constructors kernel true 8 (suc depth') 0x2000 grown ≡ ok grown)
call_constructors-once_example = call_constructors-once kernel true 8 3 0x2000 young grown grows

IsOpen-already : IsOpen linker 0x2000
IsOpen-already = (
  (λ (e : 0x2000 ≡ 0). omega arith),
  (λ (e : 1 ≡ 0). omega arith),
  refl,
  omega arith,
  omega arith,
)

a_found : find_loaded_library 8 linker (codes "a.so") ≡ ok (some 0x2000)
unfolding find_loaded_library
a_found = refl

do_dlopen-do_dlclose_example :
    (l1 l2 : Linker) × (do_dlopen kernel true 8 [] [] 3 (codes "a.so") 0 linker ≡ ok (0x2000, l1))
    × (do_dlclose kernel true 8 3 0x2000 l1 ≡ ok l2)
    × ((q : ℕ) → l2.infos q ≡ infos q)
do_dlopen-do_dlclose_example =
    do_dlopen-do_dlclose kernel true 8 (λ a n p s. (s, refl)) [] [] 2 0 (codes "a.so") linker 0x2000
      IsOpen-already a_found refl

-- A kernel that finds no file.
abbrev pub empty_disk : Kernel
empty_disk = record kernel { open_file = λ name s. failed s }

c_unknown : find_loaded_library 8 linker (codes "c.so") ≡ ok none
unfolding find_loaded_library
c_unknown = refl

c_absent :
    (s : Space)
    → (s' : Space) × (open_library empty_disk (codes "/system/lib" ∷ []) (codes "c.so") s
        ≡ failed s')
unfolding open_library
c_absent s = (s, refl)

do_dlopen-Untouched_example :
    (l' : Linker) × (do_dlopen empty_disk true 8
        (codes "/system/lib" ∷ [])
        []
        3
        (codes "c.so")
        0
        linker
      ≡ ok (0, l'))
    × Untouched linker l'
do_dlopen-Untouched_example =
    do_dlopen-Untouched empty_disk true 8 (λ a n p s. (s, refl)) (codes "/system/lib" ∷ []) [] 2 0
      (codes "c.so") linker c_unknown c_absent refl
