-- ===== src/Version/Tests.antt =====
-- Releases of a small project.
use fire2api.Base.{
  ℤ, pos, ◌≡◌, refl, Bool, true, false, List, [], ◌∷◌, ◌++◌, Option, some, if◌then◌else◌, ◌||◌,
  ◌&&◌, ◌==◌, list_eq, nat_eq,
}
use fire2api.Text.{Text, codes}
use fire2api.Version.{Triple, minor, parse_version, bump_version}
use fire2api.Version.Bumps.{IsNext, parse_version-bump_version}
use fire2api.Version.Lines.{version_line, replace_version_line}
use fire2api.Version.Lines.Replaced.{replace_version_line-changed}
use fire2api.Version.Release.{Directory, done, failed, commit_failed, next, main}
use fire2api.Version.Release.Restored.{IsDirectory, IsReleased}
use fire2api.Version.Release.Released.{main-IsReleased}

parse_version-bump_version_example :
    (new : Text) × (bump_version (codes "1.9.3") minor ≡ some new)
    × ((next : Triple) × (parse_version new ≡ some next) × IsNext minor (1, 9, 3) next)
unfolding parse_version
parse_version-bump_version_example = parse_version-bump_version (codes "1.9.3") minor (1, 9, 3) refl

abbrev project : Text → Text
project version = codes "[project]" ++ 13 ∷ 10 ∷ (version_line version ++ 10 ∷ codes "x = 1")

replace_version_line-changed_example :
    (before after : Text) × (project (codes "1.9.3")
      ≡ before ++ (version_line (codes "1.9.3") ++ after))
    × (project (codes "1.10.0") ≡ before ++ (version_line (codes "1.10.0") ++ after))
unfolding replace_version_line
replace_version_line-changed_example =
    replace_version_line-changed (project (codes "1.9.3")) (codes "1.9.3") (codes "1.10.0")
      (project (codes "1.10.0")) refl

-- The file's text; there is no other tag, and a hook refuses the commit if the first is true.
abbrev World : Type 0
World = Bool × Text

abbrev answers : World → List Text → ℤ
answers (refuses, file) [] = pos 0
answers (refuses, file) (command ∷ args) =
    if command == codes "rev-parse" || (refuses && command == codes "commit") then pos 1 else pos 0

abbrev directory : Directory World
directory = record {
  run = λ w args. some (w, answers w args, []);
  read_text = λ w. some w.1;
  write_text = λ w t. ((w.0, t), true);
  load = λ w. some (some (codes "1.9.3"));
  strip = λ s. s;
}

directory-IsDirectory : IsDirectory directory
directory-IsDirectory = record {
  quiet = λ w w' args code out e. same e;
  writes = λ w w' t e. written e;
}
  where
    same :
        {w w' : World} {code code' : ℤ} {out out' : Text}
        → ◌≡◌ {A = Option (World × ℤ × Text)} (some (w, code, out)) (some (w', code', out'))
        → ◌≡◌ {A = Option Text} (some w'.1) (some w.1)
    same x = cc

    written :
        {b : Bool} {t : Text} {w' : World}
        → ◌≡◌ {A = World × Bool} ((b, t), true) (w', true)
        → ◌≡◌ {A = Option Text} (some w'.1) (some t)
    written x = cc

released :
    main directory (next minor) (false, project (codes "1.9.3"))
    ≡ ((false, project (codes "1.10.0")), done (codes "v1.10.0"))
unfolding main parse_version bump_version replace_version_line
released = refl

refused :
    main directory (next minor) (true, project (codes "1.9.3"))
    ≡ ((true, project (codes "1.9.3")), failed commit_failed)
unfolding main parse_version bump_version replace_version_line
refused = refl

main-IsReleased_example :
    IsReleased directory
      (true, project (codes "1.9.3"))
      (main directory (next minor) (true, project (codes "1.9.3")))
main-IsReleased_example =
    main-IsReleased directory directory-IsDirectory (next minor) (true, project (codes "1.9.3"))
