-- ===== src/Lifetime/Missing.antt =====
-- Opening a library that is not there.
use Prim.Native.Nat.{bit_and, bit_or}
use and_emu.Base.{ℕ, suc, ◌-◌, ◌≡◌, refl, ◌∙◌, Bool, false, none, List, arith, ◌!=◌}
use and_emu.Base.Exec.{ok}
use and_emu.Base.Word.{minus_one}
use and_emu.Kernel.{Space, failed, Kernel, prot_read, prot_write}
use and_emu.Library.{with_space, open_library, load_library, find_library_internal, find_library}
use and_emu.Lifetime.{do_dlopen}
use and_emu.Lifetime.Reopen.{NeverRefuses, pools-ok}
use and_emu.Register.{set_pool_protection, find_loaded_library}
use and_emu.SoInfo.{Linker}

-- The linker as it was, but for the process.
abbrev pub Untouched : Linker → Linker → Type 0
Untouched l l' =
    (l'.infos ≡ l.infos)
    × (l'.solist ≡ l.solist)
    × (l'.sonext ≡ l.sonext)
    × (l'.free_list ≡ l.free_list)
    × (l'.pools ≡ l.pools)
    × (l'.preloads ≡ l.preloads)

module _ (k : Kernel) (native : Bool) (fuel : ℕ) (willing : NeverRefuses k) where
  abbrev nothing_loaded : Linker → Space → ℕ × Linker
  nothing_loaded l s = (0, with_space l s)

  load_library-missing :
      (paths : List (List ℕ)) (name : List ℕ) (l : Linker) (s : Space)
      → open_library k paths name l.space ≡ failed s
      → load_library k paths name l ≡ nothing_loaded l s
  unfolding load_library
  load_library-missing paths name l s absent = rw (absent, load_library)

  find_library-missing :
      (paths preload_names : List (List ℕ)) (depth : ℕ) (name : List ℕ) (l : Linker) (s : Space)
      → find_loaded_library fuel l name ≡ ok none
      → open_library k paths name l.space ≡ failed s
      → find_library k fuel paths preload_names (suc depth) name l ≡ ok (0, with_space l s)
  unfolding find_library find_library_internal
  find_library-missing paths preload_names depth name l s unloaded absent =
      rw (unloaded, load_library-missing paths name l s absent)

  same_search :
      (l : Linker) (s : Space) (name : List ℕ)
      → find_loaded_library fuel (with_space l s) name ≡ find_loaded_library fuel l name
  unfolding find_loaded_library
  same_search l s name = refl

  -- If the kernel refuses no change of protection, no library of the list has the name, and the file
  -- cannot be opened, do_dlopen with accepted flags returns NULL and leaves the register as it was.
  pub do_dlopen-Untouched :
      (paths preload_names : List (List ℕ)) (depth flags : ℕ) (name : List ℕ) (l : Linker)
      → find_loaded_library fuel l name ≡ ok none
      → ((s : Space) → (s' : Space) × (open_library k paths name s ≡ failed s'))
      → bit_and flags (minus_one - 3) ≡ 0
      → (l' : Linker) × (do_dlopen k native fuel paths preload_names (suc depth) name flags l
          ≡ ok (0, l'))
        × Untouched l l'
  unfolding do_dlopen
  do_dlopen-Untouched paths preload_names depth flags name l unloaded absent known = (
    with_space (with_space (with_space l s1.0) s2.0) s3.0,
    rw (accepted, s1.1, found, s3.1),
    (refl, refl, refl, refl, refl, refl),
  )
    where
      accepted : (bit_and flags (minus_one - 3) != 0) ≡ false
      accepted = ground (arith, known)

      s1 :
          (s' : Space) × (set_pool_protection k (bit_or prot_read prot_write) l.pools l.space
            ≡ ok s')
      s1 = pools-ok k willing (bit_or prot_read prot_write) l.pools l.space

      s2 : (s' : Space) × (open_library k paths name s1.0 ≡ failed s')
      s2 = absent s1.0

      found :
          find_library k fuel paths preload_names (suc depth) name (with_space l s1.0)
          ≡ ok (0, with_space (with_space l s1.0) s2.0)
      found =
          find_library-missing paths preload_names depth name (with_space l s1.0) s2.0
            (same_search l s1.0 name ∙ unloaded) s2.1

      s3 : (s' : Space) × (set_pool_protection k prot_read l.pools s2.0 ≡ ok s')
      s3 = pools-ok k willing prot_read l.pools s2.0
