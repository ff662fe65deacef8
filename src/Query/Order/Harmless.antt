-- ===== src/Query/Order/Harmless.antt =====
-- What ORDER_BY can add to a statement.
use fire2api.Base.{
  ℕ, ◌≡◌, refl, sym, ap, ◌∙◌, Bool, true, false, ◌&&◌, ◌||◌, List, [], ◌∷◌, ◌++◌, none, some, ◌==◌,
  nat_eq, list_eq, any, all, ◌⊎◌, nat_beq_iff, arith, Option-cases, Bool-cases, inl, inr,
}
use fire2api.Text.{Text, Unicode, codes, rstrip, lstrip}
use fire2api.Sql.Comments.{strip_comments}
use fire2api.Sql.Literals.{strip_literals}
use fire2api.Sql.Words.{top_level_words}
use fire2api.Query.Order.{
  letters, join_commas, has_order, is_order_start, is_order_char, drop_name, behind_order_name,
  is_word, is_direction, behind_dot, behind_first, is_order_item, order_items, apply_order_by,
}

both : (a b : Bool) → (a && b) ≡ true → (a ≡ true) × (b ≡ true)
both a b h = ground arith

one : (a b : Bool) → (a || b) ≡ true → (a ≡ true) ⊎ (b ≡ true)
one true b h = inl refl
one false b h = inr h

all-append : (p : ℕ → Bool) (s t : Text) → all p s ≡ true → all p t ≡ true → all p (s ++ t) ≡ true
all-append p [] t hs ht = ht
all-append p (c ∷ s) t hs ht = ground (arith, all-append p s t)

module _ (u : Unicode) where
  -- Letters, digits, `_` and `$`, white space, dots and commas: nothing that could end the
  -- statement, open a literal, a comment or a parenthesis.
  abbrev pub is_harmless : ℕ → Bool
  is_harmless c = is_order_char u c || (u.is_space c || (c == b'.' || c == b','))

  char-harmless : (c : ℕ) → is_order_char u c ≡ true → is_harmless c ≡ true
  char-harmless c h = rw h refl

  drop_name-harmless :
      (s : Text) → all is_harmless (drop_name u s) ≡ true → all is_harmless s ≡ true
  unfolding drop_name
  drop_name-harmless [] h = refl
  drop_name-harmless (c ∷ s) h = elim (Bool-cases (is_order_char u c)) [
    | inl good ↦ rw good (drop_name-harmless s (rw good at h))
    | inr bad ↦ rw bad at h
  ]

  behind_order_name-harmless :
      (s r : Text)
      → behind_order_name u s ≡ some r
      → all is_harmless r ≡ true
      → all is_harmless s ≡ true
  behind_order_name-harmless [] r e h = absurd (differ e)
    where
      differ : none ≡ some r → ⊥
      differ x = cc
  behind_order_name-harmless (c ∷ s) r e h = elim (Bool-cases (is_order_start u c)) [
    | inl good ↦
        let rest = drop_name-harmless s (ap (all is_harmless) (same (rw good at e)) ∙ h) in
        rw good rest
    | inr bad ↦ absurd (differ (rw bad at e))
  ]
    where
      same : {a b : Text} → some a ≡ some b → a ≡ b
      same x = cc

      differ : none ≡ some r → ⊥
      differ x = cc

  lstrip-harmless :
      (s : Text) → all is_harmless (lstrip u.is_space s) ≡ true → all is_harmless s ≡ true
  unfolding lstrip
  lstrip-harmless [] h = refl
  lstrip-harmless (c ∷ s) h = elim (Bool-cases (u.is_space c)) [
    | inl space ↦ ground (arith, lstrip-harmless s (rw space at h))
    | inr other ↦ rw other at h
  ]

  letter :
      (c e : ℕ) (ls : Text)
      → any (λ d. d == e) ls ≡ true
      → u.ignore_case c e ≡ true
      → any (λ d. u.ignore_case c d) ls ≡ true
  letter c e [] h same = cc
  letter c e (d ∷ ls) h same = elim (one (d == e) (any (λ d. d == e) ls) h) [
    | inl here ↦ rw (ap (u.ignore_case c) ((nat_beq_iff d e).0 here) ∙ same) refl
    | inr later ↦ ground (arith, letter c e ls later same)
  ]

  is_word-harmless :
      (w s : Text)
      → all (λ e. any (λ d. d == e) letters) w ≡ true
      → is_word u w s ≡ true
      → all is_harmless s ≡ true
  unfolding is_word
  is_word-harmless [] [] k h = refl
  is_word-harmless (d ∷ w) (c ∷ s) k h =
      let (kd, kw) = both _ _ k in
      let (hc, hs) = both (u.ignore_case c d) _ h in
      rw (letter c d letters kd hc) (is_word-harmless w s kw hs)
  is_word-harmless [] (c ∷ s) k h = cc
  is_word-harmless (d ∷ w) [] k h = cc

  is_direction-harmless : (s : Text) → is_direction u s ≡ true → all is_harmless s ≡ true
  unfolding is_direction
  is_direction-harmless [] h = refl
  is_direction-harmless (c ∷ s) h =
      let (space, word) = both (u.is_space c) _ h in
      rw (white c space) (
        lstrip-harmless s (elim (one (is_word u (codes "ASC") (lstrip u.is_space s)) _ word) [
          | inl up ↦ is_word-harmless (codes "ASC") (lstrip u.is_space s) refl up
          | inr down ↦ is_word-harmless (codes "DESC") (lstrip u.is_space s) refl down
        ]))
    where
      white : (d : ℕ) → u.is_space d ≡ true → is_harmless d ≡ true
      white d x = ground arith

  behind_dot-harmless :
      (s : Text) → behind_dot u (behind_order_name u s) ≡ true → all is_harmless s ≡ true
  behind_dot-harmless s h = elim (Option-cases (behind_order_name u s)) [
    | inl nothing ↦ absurd (differ (sym (ap (behind_dot u) nothing) ∙ h))
    | inr (r, is) ↦
        behind_order_name-harmless s r is (is_direction-harmless r (sym (ap (behind_dot u) is) ∙ h))
  ]
    where
      differ : false ≡ true → ⊥
      differ x = cc

  behind_first-harmless : (r : Text) → behind_first u (some r) ≡ true → all is_harmless r ≡ true
  behind_first-harmless [] h = refl
  behind_first-harmless (c ∷ s) h = elim (Bool-cases (c == b'.')) [
    | inl dot ↦ rw (dotted c dot) (behind_dot-harmless s (rw dot at h))
    | inr other ↦ is_direction-harmless (c ∷ s) (rw other at h)
  ]
    where
      dotted : (d : ℕ) → (d == b'.') ≡ true → is_harmless d ≡ true
      dotted d x = ground arith

  is_order_item-harmless : (s : Text) → is_order_item u s ≡ true → all is_harmless s ≡ true
  unfolding is_order_item
  is_order_item-harmless s h = elim (Option-cases (behind_order_name u s)) [
    | inl nothing ↦ absurd (differ (sym (ap (behind_first u) nothing) ∙ h))
    | inr (r, is) ↦
        behind_order_name-harmless s r is
          (behind_first-harmless r (sym (ap (behind_first u) is) ∙ h))
  ]
    where
      differ : false ≡ true → ⊥
      differ x = cc

  join_commas-harmless :
      (comma : is_harmless b',' ≡ true) (blank : is_harmless b' ' ≡ true) (items : List Text)
      → all (is_order_item u) items ≡ true
      → all is_harmless (join_commas items) ≡ true
  join_commas-harmless comma blank [] h = refl
  join_commas-harmless comma blank (item ∷ []) h =
      is_order_item-harmless item (both (is_order_item u item) true h).0
  join_commas-harmless comma blank (item ∷ other ∷ items) h =
      let (first, rest) = both (is_order_item u item) _ h in
      all-append is_harmless item _ (is_order_item-harmless item first)
        (rw comma (rw blank (join_commas-harmless comma blank (other ∷ items) rest)))

  -- Where a blank is white space, an ORDER_BY that is accepted adds to the statement, behind the
  -- words ORDER BY, nothing but letters, digits, `_`, `$`, white space, dots and commas, and only
  -- to a statement without an ORDER BY of its own at the top level.
  pub apply_order_by-harmless :
      (sql sql' : Text) (c : ℕ) (s : Text)
      → u.is_space b' ' ≡ true
      → apply_order_by u sql (some (c ∷ s)) ≡ some sql'
      → (tail : Text) × (sql' ≡ rstrip u.is_space sql ++ codes " ORDER BY " ++ tail)
        × (all is_harmless tail ≡ true)
        × (has_order (top_level_words u (strip_literals (strip_comments sql))) ≡ false)
  unfolding apply_order_by
  apply_order_by-harmless sql sql' c s blank h =
      elim (Bool-cases (all (is_order_item u) (order_items u (c ∷ s)))) [
        | inr bad ↦ absurd (differ (rw bad at h))
        | inl good ↦
            let h' = rw good at h in
            elim (Bool-cases
              (has_order (top_level_words u (strip_literals (strip_comments sql))))) [
                | inl ordered ↦ absurd (differ (rw ordered at h'))
                | inr free ↦ (
                  join_commas (order_items u (c ∷ s)),
                  sym (same (rw free at h')),
                  join_commas-harmless (ground arith) (ground arith) (order_items u (c ∷ s)) good,
                  free,
                )
              ]
      ]
    where
      differ : none ≡ some sql' → ⊥
      differ x = cc

      same : {a b : Text} → some a ≡ some b → a ≡ b
      same x = cc
