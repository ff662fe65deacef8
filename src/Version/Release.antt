-- ===== src/Version/Release.antt =====
-- The release itself: `main` of version.py and the steps that it takes. The working directory with
-- its file and its repository is a state; Git, the file and the parser of TOML are the record
-- `Directory`.
pub mod Restored
pub mod Released
use fire2api.Base.{
  ℕ, ℤ, pos, negsuc, zero, suc, Bool, true, false, ◌&&◌, ◌||◌, not, List, [], ◌∷◌, ◌++◌, Option,
  none, some, ◌==◌, nat_eq, list_eq, if◌then◌else◌,
}
use fire2api.Text.{Text, codes}
use fire2api.Version.{Kind, Triple, parse_version, bump_version}
use fire2api.Version.Lines.{replace_version_line}

-- `none` where Git, or the file, is not there.
pub record Directory (W : Type 0) : Type 0 where
  pub run : W → List Text → Option (W × ℤ × Text)
  pub read_text : W → Option Text
  -- The new state, and whether the write succeeded.
  pub write_text : W → Text → W × Bool
  -- `project.version` of the parsed file, `some none` where it is not a text.
  pub load : W → Option (Option Text)
  pub strip : Text → Text

pub data Failure : Type 0 where
  no_git status_failed dirty no_project no_version bad_version same_version tag_exists : Failure
  tag_unknown unreadable not_one_line unwritable commit_failed untagged : Failure

pub data Ended (A : Type 0) : Type 0 where
  done : A → Ended A
  failed : Failure → Ended A

-- The arguments: a version, or the kind of the next one.
pub data Request : Type 0 where
  exactly : Text → Request
  next : Kind → Request

abbrev pub after : {W A B : Type 0} → W × Ended A → (A → W → W × Ended B) → W × Ended B
after (w, failed e) f = (w, failed e)
after (w, done a) f = f a w

abbrev pub is_zero : ℤ → Bool
is_zero (pos zero) = true
is_zero _ = false

abbrev pub is_one : ℤ → Bool
is_one (pos (suc zero)) = true
is_one _ = false

abbrev pub tag_of : Text → Text
tag_of new = codes "v" ++ new

abbrev pub parsed : {A : Type 0} → A → Option Triple → Ended A
parsed a none = failed bad_version
parsed a (some v) = done a

abbrev pub bumped_or_bad : Option Text → Ended Text
bumped_or_bad none = failed bad_version
bumped_or_bad (some new) = done new

-- `requested_version`.
abbrev pub requested_version : Text → Request → Ended Text
requested_version current (exactly version) = parsed version (parse_version version)
requested_version current (next release) = bumped_or_bad (bump_version current release)

module _ {W : Type 0} (d : Directory W) where
  abbrev pub ran : W → Option (W × ℤ × Text) → W × Ended (ℤ × Text)
  ran w none = (w, failed no_git)
  ran w (some (w', code, out)) = (w', done (code, out))

  abbrev pub run_git : List Text → W → W × Ended (ℤ × Text)
  run_git args w = ran w (d.run w args)

  -- With `check=True`; what the caller makes of a CalledProcessError is `e`.
  abbrev pub checked : Failure → ℤ × Text → W → W × Ended Text
  checked e (code, out) w = if is_zero code then (w, done out) else (w, failed e)

  abbrev pub if_clean : Text → W → W × Ended Unit
  if_clean out w = if d.strip out == [] then (w, done tt) else (w, failed dirty)

  abbrev pub ensure_clean_worktree : W → W × Ended Unit
  ensure_clean_worktree w =
      after
        (after
          (run_git (codes "status" ∷ codes "--porcelain=v1" ∷ codes "--untracked-files=normal" ∷ [])
            w)
          (checked status_failed))
        if_clean

  abbrev pub loaded : Option (Option Text) → Ended Text
  loaded none = failed no_project
  loaded (some none) = failed no_version
  loaded (some (some current)) = parsed current (parse_version current)

  abbrev pub load_project_version : W → W × Ended Text
  load_project_version w = (w, loaded (d.load w))

  abbrev pub if_free : ℤ × Text → W → W × Ended Unit
  if_free (code, out) w =
      if is_zero code
      then (w, failed tag_exists)
      else if is_one code
      then (w, done tt)
      else (w, failed tag_unknown)

  abbrev pub ensure_tag_is_available : Text → W → W × Ended Unit
  ensure_tag_is_available tag w =
      after
        (run_git
          (codes "rev-parse"
            ∷ codes "--verify"
            ∷ codes "--quiet"
            ∷ (codes "refs/tags/" ++ tag)
            ∷ [])
          w)
        if_free

  abbrev pub text_or : Failure → Option Text → Ended Text
  text_or e none = failed e
  text_or e (some s) = done s

  abbrev pub read_project_text : W → W × Ended Text
  read_project_text w = (w, text_or unreadable (d.read_text w))

  abbrev pub written_or : W × Bool → W × Ended Unit
  written_or (w, true) = (w, done tt)
  written_or (w, false) = (w, failed unwritable)

  abbrev pub write_project_text : Text → W → W × Ended Unit
  write_project_text text w = written_or (d.write_text w text)

  abbrev pub restore_after_git_failure : Text → W → W × Ended Unit
  restore_after_git_failure original w =
      after
        (run_git (codes "restore" ∷ codes "--staged" ∷ codes "--" ∷ codes "pyproject.toml" ∷ []) w)
        (λ _. write_project_text original)

  -- One of the two commands of the commit, with the restoration where it fails.
  abbrev pub or_restore : Text → ℤ × Text → W → W × Ended Unit
  or_restore original (code, out) w =
      if is_zero code
      then (w, done tt)
      else after (restore_after_git_failure original w) (λ _ w'. (w', failed commit_failed))

  abbrev pub if_tagged : ℤ × Text → W → W × Ended Unit
  if_tagged (code, out) w = if is_zero code then (w, done tt) else (w, failed untagged)

  abbrev pub add_file : Text → W → W × Ended Unit
  add_file original w =
      after (run_git (codes "add" ∷ codes "pyproject.toml" ∷ []) w) (or_restore original)

  abbrev pub commit_file : Text → Text → W → W × Ended Unit
  commit_file original new w =
      after (run_git (codes "commit" ∷ codes "-m" ∷ tag_of new ∷ []) w) (or_restore original)

  abbrev pub add_tag : Text → W → W × Ended Unit
  add_tag new w = after (run_git (codes "tag" ∷ tag_of new ∷ []) w) if_tagged

  abbrev pub commit_version : Text → Text → W → W × Ended Unit
  commit_version original new w =
      after (after (add_file original w) (λ _. commit_file original new)) (λ _. add_tag new)

  abbrev pub unless_same : Text → Text → W → W × Ended Unit
  unless_same current new w = if new == current then (w, failed same_version) else (w, done tt)

  -- The file's text and the text to come.
  abbrev pub with_updated : Text → Option Text → Ended (Text × Text)
  with_updated original none = failed not_one_line
  with_updated original (some updated) = done (original, updated)

  abbrev pub replaced : Text → Text → Text → W → W × Ended (Text × Text)
  replaced current new original w =
      (w, with_updated original (replace_version_line original current new))

  -- What comes before the first write.
  abbrev pub prepare : Text → Text → W → W × Ended (Text × Text)
  prepare current new w =
      after
        (after (after (unless_same current new w) (λ _. ensure_tag_is_available (tag_of new)))
          (λ _. read_project_text))
        (replaced current new)

  abbrev pub publish : Text → Text × Text → W → W × Ended Text
  publish new (original, updated) w =
      after (after (write_project_text updated w) (λ _. commit_version original new))
        (λ _ w'. (w', done (tag_of new)))

  abbrev pub release : Text → Text → W → W × Ended Text
  release current new w = after (prepare current new w) (publish new)

  -- The tag that is printed, or the error.
  unfoldable pub main : Request → W → W × Ended Text
  main request w =
      after (after (ensure_clean_worktree w) (λ _. load_project_version))
        (λ current w'. after (w', requested_version current request) (release current))
