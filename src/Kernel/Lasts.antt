-- ===== src/Kernel/Lasts.antt =====
-- Properties of the kernel's state that outlast every call, and the steps that keep them.
use and_emu.Base.{ℕ, List}
use and_emu.Kernel.{Space, Attempt, done, failed, and_then, or_try, space_of, Mapping, Kernel}

-- A property of the kernel's state that no call ends.
pub record Lasts (k : Kernel) (P : ℕ → Type 0) : Type 0 where
  pub mmap_lasts : (q : Mapping) (s : Space) → P s.kernel → P (space_of (k.mmap q s)).kernel
  pub mprotect_lasts :
      (a n prot : ℕ) (s : Space) → P s.kernel → P (space_of (k.mprotect a n prot s)).kernel
  pub munmap_lasts : (a n : ℕ) (s : Space) → P s.kernel → P (k.munmap a n s).kernel
  pub open_lasts :
      (name : List ℕ) (s : Space) → P s.kernel → P (space_of (k.open_file name s)).kernel
  pub read_lasts : (fd n : ℕ) (s : Space) → P s.kernel → P (k.read fd n s).after.kernel
  pub close_lasts : (fd : ℕ) (s : Space) → P s.kernel → P (k.close fd s).kernel
  pub call_lasts : (f : ℕ) (s : Space) → P s.kernel → P (k.call f s).kernel

module _ (P : ℕ → Type 0) where
  abbrev pub KeepsSpace : {A : Type 0} → (Space → Attempt A) → Type 0
  KeepsSpace step = (s : Space) → P s.kernel → P (space_of (step s)).kernel

  pub and_then-KeepsSpace :
      {A B : Type 0} (first : Attempt A) (next : A → Space → Attempt B)
      → P (space_of first).kernel
      → ((a : A) → KeepsSpace (next a))
      → P (space_of (and_then first next)).kernel
  and_then-KeepsSpace (done a s) next p keeps = keeps a s p
  and_then-KeepsSpace (failed s) next p keeps = p

  pub or_try-KeepsSpace :
      {A : Type 0} (first : Attempt A) (next : Space → Attempt A)
      → P (space_of first).kernel
      → KeepsSpace next
      → P (space_of (or_try first next)).kernel
  or_try-KeepsSpace (done a s) next p keeps = p
  or_try-KeepsSpace (failed s) next p keeps = keeps s p
