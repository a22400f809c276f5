-- ===== src/Library/Opening.antt =====
-- The names that open_library opens.
use and_emu.Base.{
  ℕ, zero, suc, ◌+◌, ◌≡◌, refl, sym, ap, ◌∙◌, Bool, true, false, List, [], ◌∷◌, arith, leb, ◌==◌,
  if◌then◌else◌, length,
}
use and_emu.Kernel.{Space, Attempt, done, failed, or_try, Kernel}
use and_emu.Library.{has_slash, path_size, open_library_on_path, open_library}
use mathlib.Core.Path.{fun_ext}

module _ (k : Kernel) (name : List ℕ) where
  -- Opens `name`, up to a number of times, until it succeeds.
  abbrev pub attempts : ℕ → Space → Attempt ℕ
  attempts zero s = failed s
  attempts (suc n) s = or_try (k.open_file name s) (λ s'. attempts n s')

  -- How often a path leads to an attempt: once if it is empty, and once more if it and the name fit
  -- into the buffer.
  abbrev pub tries : List (List ℕ) → ℕ
  tries [] = 0
  tries (p ∷ ps) =
      (if length p == 0 then 1 else 0)
      + ((if leb path_size (length p + 1 + length name) then 0 else 1) + tries ps)

  add_zero : (b : ℕ) → 0 + b ≡ b
  add_zero b = omega arith

  one_add : (b : ℕ) → 1 + b ≡ suc b
  one_add b = omega arith

  add_suc : (a b : ℕ) → suc a + b ≡ suc (a + b)
  add_suc a b = omega arith

  attempts-add :
      (a b : ℕ) (s : Space) → attempts (a + b) s ≡ or_try (attempts a s) (λ s'. attempts b s')
  attempts-add zero b s = ap (λ n. attempts n s) (add_zero b)
  attempts-add (suc a) b s =
      ap (λ n. attempts n s) (add_suc a b) ∙ split (k.open_file name s) (λ s'. attempts-add a b s')
    where
      split :
          (r : Attempt ℕ)
          → ((s' : Space) → attempts (a + b) s' ≡ or_try (attempts a s') (λ s''. attempts b s''))
          → or_try r (λ s'. attempts (a + b) s')
            ≡ or_try (or_try r (λ s'. attempts a s')) (λ s'. attempts b s')
      split (done fd s') ih = refl
      split (failed s') ih = ih s'

  -- One attempt or none.
  attempt_if :
      (test : Bool) (s : Space)
      → (if test then k.open_file name s else failed s) ≡ attempts (if test then 1 else 0) s
  attempt_if true s = split (k.open_file name s)
    where
      split : (r : Attempt ℕ) → r ≡ or_try r (λ s'. failed s')
      split (done fd s') = refl
      split (failed s') = refl
  attempt_if false s = refl

  open_library_on_path-attempts :
      (ps : List (List ℕ)) (s : Space) → open_library_on_path k name ps s ≡ attempts (tries ps) s
  unfolding open_library_on_path
  open_library_on_path-attempts [] s = refl
  open_library_on_path-attempts (p ∷ ps) s =
      let ih : (s' : Space) → open_library_on_path k name ps s' ≡ attempts (tries ps) s' =
        λ s'. open_library_on_path-attempts ps s' in
      let late : (s' : Space)
          → (if leb path_size (length p + 1 + length name)
              then open_library_on_path k name ps s'
              else or_try (k.open_file name s') (λ s''. open_library_on_path k name ps s''))
            ≡ attempts ((if leb path_size (length p + 1 + length name) then 0 else 1) + tries ps)
                s' =
        λ s'. second (leb path_size (length p + 1 + length name)) s' ih in
      ap
        (λ (t : Attempt ℕ). or_try t (λ s'.
          if leb path_size (length p + 1 + length name)
          then open_library_on_path k name ps s'
          else or_try (k.open_file name s') (λ s''. open_library_on_path k name ps s'')))
        (attempt_if (length p == 0) s)
      ∙ ap (λ (f : Space → Attempt ℕ). or_try (attempts (if length p == 0 then 1 else 0) s) f)
          (fun_ext late)
      ∙ sym (
          attempts-add (if length p == 0 then 1 else 0)
            ((if leb path_size (length p + 1 + length name) then 0 else 1) + tries ps) s)
    where
      second :
          (long : Bool) (s' : Space)
          → ((s'' : Space) → open_library_on_path k name ps s'' ≡ attempts (tries ps) s'')
          → (if long
              then open_library_on_path k name ps s'
              else or_try (k.open_file name s') (λ s''. open_library_on_path k name ps s''))
            ≡ attempts ((if long then 0 else 1) + tries ps) s'
      second true s' ih = ih s' ∙ ap (λ n. attempts n s') (sym (add_zero (tries ps)))
      second false s' ih =
          ap (λ (f : Space → Attempt ℕ). or_try (k.open_file name s') f) (fun_ext ih)
          ∙ ap (λ n. attempts n s') (sym (one_add (tries ps)))

  -- Whatever the search paths are, every attempt of open_library is to open `name` itself, and it
  -- makes as many, until one succeeds, as there are a slash in the name (one), empty paths, and
  -- paths that fit with the name into the buffer.
  pub open_library-attempts :
      (paths : List (List ℕ)) (s : Space)
      → open_library k paths name s ≡ attempts ((if has_slash name then 1 else 0) + tries paths) s
  unfolding open_library
  open_library-attempts paths s =
      ap (λ t. or_try t (λ s'. open_library_on_path k name paths s'))
        (attempt_if (has_slash name) s)
      ∙ ap (λ (f : Space → Attempt ℕ). or_try (attempts (if has_slash name then 1 else 0) s) f)
          (fun_ext (λ s'. open_library_on_path-attempts paths s'))
      ∙ sym (attempts-add (if has_slash name then 1 else 0) (tries paths) s)
