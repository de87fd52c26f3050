-- ===== src/Files/Close.antt =====
-- What `sys_close` undoes of `sys_open` (kernel/sys.c).
use talios.Base.{
  ℕ, ◌<◌, ◌≡◌, ◌≢◌, Bool, false, Option, none, some, leb, ◌==◌, arith, refl, ◌∙◌, ap, sym,
  Bool-cases, inl, inr,
}
use mathlib.Core.Path.{subst}
use talios.Files.{max_handle, Filp, Op, Files, closed, sys_open, sys_close}
use talios.Files.Open.{
  Opening, no_path, bad_name, long_name, missing, a_directory, no_directory, no_file, tried,
  Attempt, not_opened, no_room, opened, sys_open-Opening,
}

module _ {S : Type 0} where
  -- The open files are those of `s`.
  pub data ClosedTo (s : Files S) : Option (ℕ × Files S) → Type 0 where
    closed_to :
        {r : ℕ} {t : Files S}
        → ((i : ℕ) → t.handle_array i ≡ s.handle_array i)
        → ClosedTo s (some (r, t))

  abbrev fd_of : Option (ℕ × Files S) → ℕ
  fd_of none = max_handle
  fd_of (some (fd, t)) = fd

  abbrev files_of : Files S → Option (ℕ × Files S) → Files S
  files_of s none = s
  files_of s (some (fd, t)) = t

  opened-ClosedTo :
      (close : Op S) (s s' : Files S) (fd : ℕ) {f : Filp}
      → fd < max_handle
      → s.handle_array fd ≡ none
      → s'.handle_array fd ≡ some f
      → ((i : ℕ) → i ≢ fd → s'.handle_array i ≡ s.handle_array i)
      → ClosedTo s (sys_close close fd s')
  unfolding sys_close closed
  opened-ClosedTo close s s' fd {f} lt free there others =
      subst (ClosedTo s) (sym (rw test refl ∙ ap (λ o. closed fd close o s') there)) (
        closed_to (λ i. elim (Bool-cases (i == fd)) [
          | inl here ↦ rw here (sym free ∙ ap s.handle_array (sym (ground (arith, here))))
          | inr away ↦ rw away (others i (λ e. ground (arith, away, e)))
        ]))
    where
      test : leb max_handle fd ≡ false
      test = ground (arith, lt)

  attempt-ClosedTo :
      (close : Op S) (s : Files S) {errno : ℕ} {f : Filp} {inodes : _} {rest : S} {r : ℕ × Files S}
      → Attempt s errno f inodes rest r
      → r.0 < max_handle
      → ClosedTo s (sys_close close r.0 r.1)
  attempt-ClosedTo close s (not_opened e) lt = absurd (omega (arith, lt))
  attempt-ClosedTo close s (no_room e emptied h) lt = absurd (omega (arith, lt))
  attempt-ClosedTo close s (opened {fd} {t} e emptied placed a b c there others) lt =
      opened-ClosedTo close s _ fd a b there others

  -- After a `sys_open` that gave a descriptor, `sys_close` of it returns, and the open files are those
  -- from before the two.
  pub sys_close-ClosedTo :
      (open_op close : Op S) (has_path has_file : Bool) (pathlen : ℕ) (dentry : Option ℕ) (flag : ℕ)
      (s s' : Files S) (fd : ℕ)
      → sys_open open_op has_path has_file pathlen dentry flag s ≡ some (fd, s')
      → fd < max_handle
      → ClosedTo s (sys_close close fd s')
  sys_close-ClosedTo open_op close has_path has_file pathlen dentry flag s s' fd e lt =
      go (sys_open-Opening open_op has_path has_file pathlen dentry flag s) e
    where
      go :
          {o : Option (ℕ × Files S)}
          → Opening open_op has_path has_file pathlen dentry flag s o
          → o ≡ some (fd, s')
          → ClosedTo s (sys_close close fd s')
      go (no_path _) h = absurd (omega (arith, lt, ap fd_of h))
      go (bad_name _) h = absurd (omega (arith, lt, ap fd_of h))
      go (long_name _) h = absurd (omega (arith, lt, ap fd_of h))
      go (missing _) h = absurd (omega (arith, lt, ap fd_of h))
      go (a_directory _ _ _) h = absurd (omega (arith, lt, ap fd_of h))
      go (no_directory _ _ _) h = absurd (omega (arith, lt, ap fd_of h))
      go (no_file _) h = absurd (omega (arith, lt, ap fd_of h))
      go (tried _ _ attempt) h =
          subst (λ o. ClosedTo s (sys_close close (fd_of o) (files_of s o))) h
            (attempt-ClosedTo close s attempt (omega (arith, lt, ap fd_of h)))
