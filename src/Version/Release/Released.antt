-- ===== src/Version/Release/Released.antt =====
-- How a release ends.
use fire2api.Base.{
  ℤ, ◌≡◌, inl, inr, refl, sym, ◌∙◌, Bool, true, false, [], Option, none, some, ◌==◌, nat_eq,
  list_eq, Bool-cases,
}
use fire2api.Text.{Text}
use fire2api.Version.Lines.{replace_version_line}
use fire2api.Version.Release.{
  Directory, status_failed, unreadable, with_updated, Ended, done, failed, Request, after, is_zero,
  is_one, tag_of, requested_version, checked, if_clean, ensure_clean_worktree, load_project_version,
  if_free, ensure_tag_is_available, read_project_text, text_or, write_project_text, commit_version,
  unless_same, replaced, prepare, publish, release, main,
}
use fire2api.Version.Release.Restored.{
  is_unknown, Unless, IsDirectory, IsReleased, IsQuiet, IsRestored, after-IsQuiet, after-IsRestored,
  quiet-IsReleased, run_git-IsQuiet, written_or-IsRestored, commit_version-IsRestored,
}

module _ {W : Type 0} (d : Directory W) (is : IsDirectory d) where
  ensure_clean_worktree-IsQuiet : (w : W) → IsQuiet d w (ensure_clean_worktree d w)
  ensure_clean_worktree-IsQuiet w =
      after-IsQuiet d w _ (if_clean d)
        (after-IsQuiet d w _ (checked d status_failed) (run_git-IsQuiet d is _ w) succeeded) clean
    where
      succeeded : (a : ℤ × Text) (w : W) → IsQuiet d w (checked d status_failed a w)
      succeeded (code, out) w = elim (Bool-cases (is_zero code)) [
        | inl fine ↦ rw fine refl
        | inr bad ↦ rw bad refl
      ]

      clean : (out : Text) (w : W) → IsQuiet d w (if_clean d out w)
      clean out w = elim (Bool-cases (d.strip out == [])) [
        | inl empty ↦ rw empty refl
        | inr full ↦ rw full refl
      ]

  may_go_on-IsQuiet :
      (current new : Text) (w : W)
      → IsQuiet d w
          (after (unless_same d current new w) (λ _. ensure_tag_is_available d (tag_of new)))
  may_go_on-IsQuiet current new w =
      after-IsQuiet d w (unless_same d current new w) (λ _. ensure_tag_is_available d (tag_of new))
        differs (λ _ w'. after-IsQuiet d w' _ (if_free d) (run_git-IsQuiet d is _ w') free)
    where
      differs : IsQuiet d w (unless_same d current new w)
      differs = elim (Bool-cases (new == current)) [
        | inl same ↦ rw same refl
        | inr other ↦ rw other refl
      ]

      free : (a : ℤ × Text) (w : W) → IsQuiet d w (if_free d a w)
      free (code, out) w = elim (Bool-cases (is_zero code)) [
        | inl there ↦ rw there refl
        | inr absent ↦ rw absent (elim (Bool-cases (is_one code)) [
          | inl known ↦ rw known refl
          | inr unknown ↦ rw unknown refl
        ])
      ]

  abbrev IsPrepared : Text → Text → W → W × Ended (Text × Text) → Type 0
  IsPrepared current new w (w', failed e) = d.read_text w' ≡ d.read_text w
  IsPrepared current new w (w', done (original, updated)) =
      (d.read_text w ≡ some original) × (replace_version_line original current new ≡ some updated)

  prepare-IsPrepared :
      (current new : Text) (w : W) → IsPrepared current new w (prepare d current new w)
  prepare-IsPrepared current new w =
      go (after (unless_same d current new w) (λ _. ensure_tag_is_available d (tag_of new)))
        (may_go_on-IsQuiet current new w)
    where
      put :
          (w' : W) (original : Text) (o : Option Text)
          → replace_version_line original current new ≡ o
          → d.read_text w' ≡ some original
          → d.read_text w' ≡ d.read_text w
          → IsPrepared current new w (w', with_updated d original o)
      put w' original none e t q = q
      put w' original (some updated) e t q = (sym q ∙ t, e)

      look :
          (w' : W) (o : Option Text)
          → d.read_text w' ≡ o
          → d.read_text w' ≡ d.read_text w
          → IsPrepared current new w (after (w', text_or d unreadable o) (replaced d current new))
      look w' none e q = q
      look w' (some original) e q =
          put w' original (replace_version_line original current new) refl e q

      go :
          (r : W × Ended Unit)
          → IsQuiet d w r
          → IsPrepared current new w
              (after (after r (λ _. read_project_text d)) (replaced d current new))
      go (w', failed e) q = q
      go (w', done a) q = look w' (d.read_text w') refl q

  release-IsReleased : (current new : Text) (w : W) → IsReleased d w (release d current new w)
  release-IsReleased current new w = go (prepare d current new w) (prepare-IsPrepared current new w)
    where
      ended :
          (original updated : Text) (r : W × Ended Unit)
          → d.read_text w ≡ some original
          → replace_version_line original current new ≡ some updated
          → IsRestored d original updated r
          → IsReleased d w (after r (λ _ w'. (w', done (tag_of new))))
      ended original updated (w', done a) t e h = (original, current, new, updated, t, e, h, refl)
      ended original updated (w', failed x) t e h = weaken (is_unknown x) h
        where
          weaken :
              (b : Bool)
              → Unless b (d.read_text w' ≡ some original)
              → Unless b (d.read_text w' ≡ d.read_text w)
          weaken true h = tt
          weaken false h = h ∙ sym t

      go :
          (r : W × Ended (Text × Text))
          → IsPrepared current new w r
          → IsReleased d w (after r (publish d new))
      go (w', failed e) q = quiet-IsReleased d w w' e q
      go (w', done (original, updated)) q =
          ended original updated
            (after (write_project_text d updated w') (λ _. commit_version d original new)) q.0 q.1
            (after-IsRestored d original updated (write_project_text d updated w')
              (λ _. commit_version d original new)
              (written_or-IsRestored d is original updated w' (d.write_text w' updated) refl)
              (λ _ w2 h. commit_version-IsRestored d is original updated new w2 h))

  -- Where the commands of Git leave pyproject.toml alone and a write that succeeds is read back: a
  -- release that prints its tag leaves the file with exactly its version line replaced, and the tag is
  -- that of the new version; one that fails leaves the file as it was, a commit that is refused
  -- included, but for a missing Git, a failed write, and a tag that fails behind the commit.
  pub main-IsReleased : (request : Request) (w : W) → IsReleased d w (main d request w)
  unfolding main
  main-IsReleased request w = go (after (ensure_clean_worktree d w) (λ _. load_project_version d)) (
      after-IsQuiet d w (ensure_clean_worktree d w) (λ _. load_project_version d)
        (ensure_clean_worktree-IsQuiet w) (λ _ w'. refl))
    where
      shift :
          (w' : W) (r : W × Ended Text)
          → d.read_text w' ≡ d.read_text w
          → IsReleased d w' r
          → IsReleased d w r
      shift w' (w2, done tag) q h = (h.0, h.1, h.2, h.3, sym q ∙ h.4, h.5, h.6, h.7)
      shift w' (w2, failed e) q h = weaken (is_unknown e) h
        where
          weaken :
              (b : Bool)
              → Unless b (d.read_text w2 ≡ d.read_text w')
              → Unless b (d.read_text w2 ≡ d.read_text w)
          weaken true h = tt
          weaken false h = h ∙ q

      asked :
          (w' : W) (current : Text) (e : Ended Text)
          → d.read_text w' ≡ d.read_text w
          → IsReleased d w (after (w', e) (release d current))
      asked w' current (failed e) q = quiet-IsReleased d w w' e q
      asked w' current (done new) q =
          shift w' (release d current new w') q (release-IsReleased current new w')

      go :
          (r : W × Ended Text)
          → IsQuiet d w r
          → IsReleased d w (
              after r
                (λ current w'. after (w', requested_version current request) (release d current)))
      go (w', failed e) q = quiet-IsReleased d w w' e q
      go (w', done current) q = asked w' current (requested_version current request) q
