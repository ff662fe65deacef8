-- ===== src/Version/Lines/Replaced.antt =====
-- What `replace_version_line` changes.
use mathlib.Core.List.{append_assoc, append-nil}
use fire2api.Base.{
  ℕ, suc, ◌≡◌, refl, sym, ap, ◌∙◌, Bool, true, ◌&&◌, ◌||◌, List, [], ◌∷◌, ◌++◌, none, some, ◌==◌,
  nat_eq, list_eq, list_beq_iff, if◌then◌else◌, arith, inl, inr, Bool-cases, length, drop,
  nat_beq_iff,
}
use fire2api.Text.{Text, starts_with}
use fire2api.Version.Lines.{
  split_lines, ends_line, trim_end, version_line, is_line, count_lines, replace_first,
  replace_lines, join_lines, replace_version_line,
}

pub join_lines-split_lines : (line s : Text) → join_lines (split_lines line s) ≡ line ++ s
unfolding split_lines
join_lines-split_lines [] [] = refl
join_lines-split_lines (c ∷ line) [] = refl
join_lines-split_lines [] (c ∷ s) = elim (Bool-cases (ends_line c s)) [
  | inl closes ↦ rw closes (ap (◌∷◌ c) (join_lines-split_lines [] s))
  | inr goes_on ↦ rw goes_on (join_lines-split_lines (c ∷ []) s)
]
join_lines-split_lines (b ∷ line) (c ∷ s) = elim (Bool-cases (ends_line c s)) [
  | inl closes ↦ rw closes (
      ap (λ (t : Text). ((b ∷ line) ++ c ∷ []) ++ t) (join_lines-split_lines [] s)
      ∙ append_assoc (b ∷ line) (c ∷ []) s)
  | inr goes_on ↦
      rw goes_on
        (join_lines-split_lines (b ∷ (line ++ c ∷ [])) s ∙ append_assoc (b ∷ line) (c ∷ []) s)
]

trim_end-append : (line : Text) → (rest : Text) × (line ≡ trim_end line ++ rest)
trim_end-append [] = ([], refl)
trim_end-append (c ∷ s) =
    let (rest, e) = trim_end-append s in
    elim (Bool-cases ((c == 10 || c == 13) && trim_end s == [])) [
      | inl cut ↦ rw cut (c ∷ s, refl)
      | inr kept ↦ rw kept (rest, ap (◌∷◌ c) e)
    ]

starts_with-append : (p s : Text) → (starts_with p (p ++ s) ≡ true) × (drop (length p) (p ++ s) ≡ s)
unfolding starts_with
starts_with-append [] s = (refl, refl)
starts_with-append (c ∷ p) s =
    let (starts, dropped) = starts_with-append p s in
    (both (c == c) _ ((nat_beq_iff c c).1 refl) starts, dropped)
  where
    both : (a b : Bool) → a ≡ true → b ≡ true → (a && b) ≡ true
    both a b x y = ground arith

replace_first-append : (old new rest : Text) → replace_first old new (old ++ rest) ≡ new ++ rest
replace_first-append [] new [] = start
  where
    start : (if starts_with [] [] then new else []) ≡ new ++ []
    start = rw (starts_with-append [] []).0 (sym (append-nil new))
replace_first-append [] new (c ∷ rest) = rw (starts_with-append [] (c ∷ rest)).0 refl
replace_first-append (c ∷ old) new rest =
    rw (starts_with-append (c ∷ old) rest).0
      (ap (λ (t : Text). new ++ t) (starts_with-append (c ∷ old) rest).1)

replace_lines-none :
    (old new : Text) (ls : List Text) → count_lines old ls ≡ 0 → replace_lines old new ls ≡ ls
replace_lines-none old new [] h = refl
replace_lines-none old new (l ∷ ls) h = elim (Bool-cases (is_line old l)) [
  | inl same ↦ absurd (never _ (rw same at h))
  | inr other ↦ rw other (ap (◌∷◌ l) (replace_lines-none old new ls (rw other at h)))
]
  where
    never : (n : ℕ) → suc n ≡ 0 → ⊥
    never n x = omega arith

join_lines-replace_lines :
    (old new : Text) (ls : List Text)
    → count_lines old ls ≡ 1
    → (before after : Text) × (join_lines ls ≡ before ++ (old ++ after))
      × (join_lines (replace_lines old new ls) ≡ before ++ (new ++ after))
join_lines-replace_lines old new [] h = absurd (never 0 h)
  where
    never : (n : ℕ) → 0 ≡ suc n → ⊥
    never n x = omega arith
join_lines-replace_lines old new (l ∷ ls) h = elim (Bool-cases (is_line old l)) [
  | inr other ↦
      let (before, after, whole, changed) = join_lines-replace_lines old new ls (rw other at h) in
      rw other (
        l ++ before,
        after,
        ap (λ (t : Text). l ++ t) whole ∙ sym (append_assoc l before (old ++ after)),
        ap (λ (t : Text). l ++ t) changed ∙ sym (append_assoc l before (new ++ after)),
      )
  | inl same ↦
      let (rest, e) = trim_end-append l in
      let line = e ∙ ap (λ (t : Text). t ++ rest) ((list_beq_iff (trim_end l) old).0 same) in
      rw same (
        [],
        rest ++ join_lines ls,
        ap (λ (t : Text). t ++ join_lines ls) line ∙ append_assoc old rest (join_lines ls),
        ap (λ (t : Text). t ++ join_lines (replace_lines old new ls))
              (ap (replace_first old new) line ∙ replace_first-append old new rest)
            ∙ ap (λ (t : List Text). (new ++ rest) ++ join_lines t)
                (replace_lines-none old new ls (less _ (rw same at h)))
            ∙ append_assoc new rest (join_lines ls),
      )
]
  where
    less : (n : ℕ) → suc n ≡ 1 → n ≡ 0
    less n x = omega arith

-- A replacement that succeeds changes one place of the text, where the line of the current version
-- stands, and puts the line of the new version there; all of the text around it, its line ends
-- included, is kept.
pub replace_version_line-changed :
    (text current new result : Text)
    → replace_version_line text current new ≡ some result
    → (before after : Text) × (text ≡ before ++ (version_line current ++ after))
      × (result ≡ before ++ (version_line new ++ after))
unfolding replace_version_line
replace_version_line-changed text current new result h =
    elim (Bool-cases (count_lines (version_line current) (split_lines [] text) == 1)) [
      | inr other ↦ absurd (differ (rw other at h))
      | inl one ↦
          let (before, after, whole, changed) =
            join_lines-replace_lines (version_line current) (version_line new) (split_lines [] text)
              ((nat_beq_iff _ 1).0 one) in
          (
            before,
            after,
            sym (join_lines-split_lines [] text) ∙ whole,
            sym (same (rw one at h)) ∙ changed,
          )
    ]
  where
    differ : none ≡ some result → ⊥
    differ x = cc

    same : {a b : Text} → some a ≡ some b → a ≡ b
    same x = cc
