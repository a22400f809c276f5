-- ===== src/Tests/Libdl.antt =====
-- A process that holds the tables of libdl, and nothing else.
use and_emu.Base.{
  ℕ, zero, suc, ◌+◌, ◌-◌, ◌*◌, ◌/◌, ◌%◌, ◌≡◌, refl, some, List, [], ◌∷◌, arith, ltb, if◌then◌else◌,
}
use and_emu.Base.Exec.{ok}
use and_emu.Base.Text.{codes}
use and_emu.Dlfcn.{s_dlsym}
use and_emu.Elf.{Sym, sym_at}
use and_emu.Libdl.{Tables, libdl_strtab, libdl_symtab, libdl_buckets, libdl_chains, initial_linker}
use and_emu.Libdl.Exports.{HoldsTables, s_dlsym-libdl}
use and_emu.Memory.{Memory, load8, load16, load32}
use and_emu.Register.{same_name}
use and_emu.SoInfo.{Linker}

abbrev tables : Tables
tables = record {
  strings = 0x1000;
  symbols = 0x2000;
  buckets = 0x3000;
  chains = 0x3100;
  dlopen = 0x9000;
  dlclose = 0x9100;
  dlsym = 0x9200;
  dlerror = 0x9300;
  dladdr = 0x9400;
  cxa_begin_cleanup = 0x9500;
  cxa_call_unexpected = 0x9600;
  dl_unwind_find_exidx = 0x9700;
}

abbrev at : List ℕ → ℕ → ℕ
at [] i = 0
at (x ∷ xs) zero = x
at (x ∷ xs) (suc i) = at xs i

abbrev word_bytes : List ℕ → List ℕ
word_bytes [] = []
word_bytes (x ∷ xs) = x % 256 ∷ x / 256 % 256 ∷ x / 65536 % 256 ∷ x / 16777216 % 256 ∷ word_bytes xs

abbrev sym_words : List Sym → List ℕ
sym_words [] = []
sym_words (s ∷ ss) =
    s.st_name
    ∷ s.st_value
    ∷ s.st_size
    ∷ (s.st_info + 256 * s.st_other + 65536 * s.st_shndx)
    ∷ sym_words ss

abbrev laid_out : Memory
laid_out a =
    if ltb a 0x2000
    then at libdl_strtab (a - 0x1000)
    else if ltb a 0x3000
    then at (word_bytes (sym_words (libdl_symtab tables))) (a - 0x2000)
    else if ltb a 0x3100
    then at (word_bytes libdl_buckets) (a - 0x3000)
    else at (word_bytes libdl_chains) (a - 0x3100)

abbrev started : Linker
started = initial_linker tables 0x4000 (record { memory = laid_out; kernel = 0 })

held : HoldsTables tables laid_out
unfolding load8 load32 sym_at and_emu.Memory.load16
held = record {
  strings = omega arith;
  symbols = (refl, (refl, (refl, (refl, (refl, (refl, (refl, (refl, (refl, tt)))))))));
  buckets = (refl, tt);
  chains = (
    refl,
    (refl, (refl, (refl, (refl, (refl, (refl, (refl, (refl, (refl, (refl, (refl, tt))))))))))),
  );
}

s_dlsym-libdl_example : s_dlsym 9 started 7 0x4000 (some (codes "dlclose")) ≡ ok 0x9100
unfolding same_name
s_dlsym-libdl_example =
    s_dlsym-libdl tables started 0x4000 0 0xff_ffff 9 7 (codes "dlclose") held refl (omega arith)
      (omega arith) (omega arith) (omega arith) (omega arith)
