-- ===== src/Tests/Sample.antt =====
-- A process with three libraries: libdl, one that defines the symbol "f", and one without symbols.
use and_emu.Base.{true, [], ◌==◌, if◌then◌else◌}
use and_emu.Base.Text.{codes}
use and_emu.Kernel.{Space, done, Kernel}
use and_emu.Memory.{Memory}
use and_emu.SoInfo.{SoInfo, zero_soinfo, Infos, Linker}

-- A bucket that leads to symbol 1, that symbol, and its name.
abbrev pub memory : Memory
memory a =
    if a == 0x5000
    then 1
    else if a == 0x5114
    then 0x40
    else if a == 0x5118
    then 8
    else if a == 0x511c
    then 0x10
    else if a == 0x511e
    then 1
    else if a == 0x5200
    then b'f'
    else 0

abbrev pub space : Space
space = record { memory = memory; kernel = 0 }

-- Without symbols.
abbrev pub bare : SoInfo
bare = record zero_soinfo {
  base = 0x9000;
  size = 0x1000;
  load_bias = 0x9000;
  flags = 1;
  nbucket = 1;
  nchain = 1;
  bucket = 0x5040;
  chain = 0x5050;
  symtab = 0x5100;
  strtab = 0x5200;
}

abbrev pub with_symbol : SoInfo
with_symbol = record bare {
  name = codes "a.so";
  next = 0x3000;
  base = 0xa000;
  load_bias = 0xa000;
  nchain = 2;
  bucket = 0x5000;
  chain = 0x5010;
  ref_count = 1;
  constructors_called = true;
}

abbrev pub infos : Infos
infos p =
    if p == 0x1000
    then record bare { name = codes "libdl.so"; next = 0x2000 }
    else if p == 0x2000
    then with_symbol
    else if p == 0x3000
    then record bare { name = codes "b.so"; base = 0xb000 }
    else zero_soinfo

abbrev pub linker : Linker
linker = record {
  space = space;
  infos = infos;
  solist = 0x1000;
  sonext = 0x3000;
  somain = 0;
  free_list = 0x4000;
  pools = [];
  preloads = [];
}

-- A kernel on which every call succeeds and changes nothing.
abbrev pub kernel : Kernel
kernel = record {
  mmap = λ q s. done 0x10000 s;
  mprotect = λ a n p s. done tt s;
  munmap = λ a n s. s;
  open_file = λ name s. done 3 s;
  read = λ fd n s. record { count = 0; bytes = λ i. 0; after = s };
  close = λ fd s. s;
  call = λ f s. s;
}
