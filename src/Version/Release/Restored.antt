-- ===== src/Version/Release/Restored.antt =====
-- What a release leaves in pyproject.toml.
use fire2api.Base.{
  ℤ, ◌≡◌, inl, inr, refl, ◌∙◌, Bool, true, false, List, [], ◌∷◌, Option, none, some, nat_eq,
  list_eq, Bool-cases,
}
use fire2api.Text.{Text, codes}
use fire2api.Version.Lines.{replace_version_line}
use fire2api.Version.Release.{
  Directory, Failure, no_git, unwritable, untagged, commit_failed, Ended, done, failed, after,
  is_zero, tag_of, ran, run_git, written_or, write_project_text, or_restore, if_tagged, add_file,
  commit_file, add_tag, commit_version,
}

-- The failures behind which the file is what a failed write, or a commit that is not undone, left.
abbrev pub is_unknown : Failure → Bool
is_unknown no_git = true
is_unknown unwritable = true
is_unknown untagged = true
is_unknown _ = false

abbrev pub Unless : Bool → Type 0 → Type 0
Unless true P = Unit
Unless false P = P

pub Unless-of : (b : Bool) {P : Type 0} → P → Unless b P
Unless-of true h = tt
Unless-of false h = h

module _ {W : Type 0} (d : Directory W) where
  -- What Git does leaves the file alone, and a write that succeeds is read back.
  pub record IsDirectory : Type 0 where
    pub quiet :
        (w w' : W) (args : List Text) (code : ℤ) (out : Text)
        → d.run w args ≡ some (w', code, out)
        → d.read_text w' ≡ d.read_text w
    pub writes : (w w' : W) (t : Text) → d.write_text w t ≡ (w', true) → d.read_text w' ≡ some t

  abbrev pub IsReleased : W → W × Ended Text → Type 0
  IsReleased w (w', done tag) =
      (original : Text) × (current : Text) × (new : Text) × (updated : Text) × (d.read_text w
        ≡ some original)
      × (replace_version_line original current new ≡ some updated)
      × (d.read_text w' ≡ some updated)
      × (tag ≡ tag_of new)
  IsReleased w (w', failed e) = Unless (is_unknown e) (d.read_text w' ≡ d.read_text w)

  abbrev pub IsQuiet : {A : Type 0} → W → W × Ended A → Type 0
  IsQuiet w r = d.read_text r.0 ≡ d.read_text w

  -- The text to come, or the old one again.
  abbrev pub IsRestored : {A : Type 0} → Text → Text → W × Ended A → Type 0
  IsRestored original updated (w', done a) = d.read_text w' ≡ some updated
  IsRestored original updated (w', failed e) =
      Unless (is_unknown e) (d.read_text w' ≡ some original)

  pub after-IsQuiet :
      {A B : Type 0} (w : W) (r : W × Ended A) (f : A → W → W × Ended B)
      → IsQuiet w r
      → ((a : A) (w' : W) → IsQuiet w' (f a w'))
      → IsQuiet w (after r f)
  after-IsQuiet w (w', failed e) f h k = h
  after-IsQuiet w (w', done a) f h k = k a w' ∙ h

  pub after-IsRestored :
      {A B : Type 0} (original updated : Text) (r : W × Ended A) (f : A → W → W × Ended B)
      → IsRestored original updated r
      → ((a : A) (w' : W) → d.read_text w' ≡ some updated → IsRestored original updated (f a w'))
      → IsRestored original updated (after r f)
  after-IsRestored original updated (w', failed e) f h k = h
  after-IsRestored original updated (w', done a) f h k = k a w' h

  -- A failure behind which the file is as before.
  pub quiet-IsReleased :
      (w w' : W) (e : Failure) → d.read_text w' ≡ d.read_text w → IsReleased w (w', failed e)
  quiet-IsReleased w w' e h = Unless-of (is_unknown e) h

  module _ (is : IsDirectory) where
    pub run_git-IsQuiet : (args : List Text) (w : W) → IsQuiet w (run_git d args w)
    run_git-IsQuiet args w = go (d.run w args) refl
      where
        go : (o : Option (W × ℤ × Text)) → d.run w args ≡ o → IsQuiet w (ran d w o)
        go none e = refl
        go (some (w', code, out)) e = is.quiet w w' args code out e

    -- A command that is looked at afterwards.
    run_git-IsRestored :
        {A : Type 0} (original updated : Text) (args : List Text) (f : ℤ × Text → W → W × Ended A)
        (w : W)
        → d.read_text w ≡ some updated
        → ((a : ℤ × Text) (w' : W)
            → d.read_text w' ≡ some updated
            → IsRestored original updated (f a w'))
        → IsRestored original updated (after (run_git d args w) f)
    run_git-IsRestored original updated args f w h k = go (d.run w args) refl
      where
        go :
            (o : Option (W × ℤ × Text))
            → d.run w args ≡ o
            → IsRestored original updated (after (ran d w o) f)
        go none e = tt
        go (some (w', code, out)) e = k (code, out) w' (is.quiet w w' args code out e ∙ h)

    pub written_or-IsRestored :
        (original t : Text) (w : W) (r : W × Bool)
        → d.write_text w t ≡ r
        → IsRestored original t (written_or d r)
    written_or-IsRestored original t w (w', true) e = is.writes w w' t e
    written_or-IsRestored original t w (w', false) e = tt

    or_restore-IsRestored :
        (original updated : Text) (a : ℤ × Text) (w : W)
        → d.read_text w ≡ some updated
        → IsRestored original updated (or_restore d original a w)
    or_restore-IsRestored original updated (code, out) w h = elim (Bool-cases (is_zero code)) [
      | inl fine ↦ rw fine h
      | inr bad ↦ rw bad (
          go (
            d.run w
              (codes "restore" ∷ codes "--staged" ∷ codes "--" ∷ codes "pyproject.toml" ∷ [])))
    ]
      where
        put :
            (w : W) (r : W × Bool)
            → d.write_text w original ≡ r
            → IsRestored {A = Unit} original updated
                (after (written_or d r) (λ _ w'. (w', failed commit_failed)))
        put w (w', true) e = is.writes w w' original e
        put w (w', false) e = tt

        go :
            (o : Option (W × ℤ × Text))
            → IsRestored {A = Unit} original updated (
                after
                  (after (ran d w o) (λ _. write_project_text d original))
                  (λ _ w'. (w', failed commit_failed)))
        go none = tt
        go (some (w', code, out)) = put w' (d.write_text w' original) refl

    pub commit_version-IsRestored :
        (original updated new : Text) (w : W)
        → d.read_text w ≡ some updated
        → IsRestored original updated (commit_version d original new w)
    commit_version-IsRestored original updated new w h =
        after-IsRestored original updated
          (after (add_file d original w) (λ _. commit_file d original new)) (λ _. add_tag d new)
          (after-IsRestored original updated (add_file d original w)
            (λ _. commit_file d original new)
            (run_git-IsRestored original updated _ (or_restore d original) w h
              (or_restore-IsRestored original updated))
            (λ _ w' h'.
              run_git-IsRestored original updated _ (or_restore d original) w' h'
                (or_restore-IsRestored original updated)))
          (λ _ w' h'. run_git-IsRestored original updated _ (if_tagged d) w' h' tagged)
      where
        tagged :
            (a : ℤ × Text) (w : W)
            → d.read_text w ≡ some updated
            → IsRestored original updated (if_tagged d a w)
        tagged (code, out) w h = elim (Bool-cases (is_zero code)) [
          | inl fine ↦ rw fine h
          | inr bad ↦ rw bad tt
        ]
