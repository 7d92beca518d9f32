-- ===== src/Telemetry/Fields/Safe.antt =====
-- What the sanitisers let through.
use unidenr8_bluetooth.Prelude.{
  ℕ, suc, sym, subst, ◌∙◌, ◌≤◌, ◌≡◌, refl, Bool, true, not, ◌||◌, Option, none, some, List, [], ◌∷◌,
  ◌==◌, length, keep, all_of, All, arith, ap,
}
use unidenr8_bluetooth.Runtime.Text.{Text, split, split_ne, join}
use unidenr8_bluetooth.Runtime.Text.Lengths.{
  length-strip_by, weight, length-join_le, weight-split, all_of-join,
}
use unidenr8_bluetooth.Runtime.Text.Pieces.{
  occurrences, occurrences-strip_by, split-free, length-split-join,
}
use unidenr8_bluetooth.Runtime.Unicode.{Unicode, strip, all_chars}
use unidenr8_bluetooth.Telemetry.Fields.{
  is_filler, safe_candidate, safe_word, safe_piece, safe_pieces, cons_piece, joined, safe_pieces_of,
  safe_group,
}

module _ ⦃u : Unicode⦄ where
  -- a character that a word may have, and one that a group may have
  abbrev pub word_char : ℕ → Bool
  word_char c = u.is_alnum c || is_filler c

  abbrev pub group_char : ℕ → Bool
  group_char c = word_char c || c == b','

  -- a text of such characters, within a length
  abbrev pub IsWithin : (ℕ → Bool) → ℕ → Text → Type 0
  IsWithin test limit s = (length s ≤ limit) × (all_of test s ≡ true)

  kept_safe :
      (s : Text)
      → all_of u.is_alnum (keep (λ d. not (is_filler d)) s) ≡ true
      → all_of word_char s ≡ true
  kept_safe [] h = refl
  kept_safe (c ∷ s) h = ground (arith, kept_safe s)

  all_chars-all_of : (test : ℕ → Bool) (s : Text) → all_chars test s ≡ true → all_of test s ≡ true
  all_chars-all_of test [] h = refl
  all_chars-all_of test (c ∷ s) h = h

  safe_candidate-IsWithin :
      (limit : ℕ) (s w : Text)
      → safe_candidate limit s ≡ some w
      → (w ≡ s) × IsWithin word_char limit s
  unfolding safe_candidate
  safe_candidate-IsWithin limit [] w h = absurd (cc h)
  safe_candidate-IsWithin limit (c ∷ s) w h =
      let a = all_chars-all_of u.is_alnum (keep (λ d. not (is_filler d)) (c ∷ s)) in
      let b = kept_safe (c ∷ s) in ground (arith, a, b)

  -- What `_safe_word` returns is the stripped field, within the limit, and every character of it is
  -- alphanumeric, a space, a dot or a hyphen.
  pub safe_word-IsWithin :
      (limit : ℕ) (value w : Text)
      → safe_word limit (some value) ≡ some w
      → (w ≡ strip value) × IsWithin word_char limit w
  unfolding safe_word
  safe_word-IsWithin limit value w h =
      let (e, within) = safe_candidate-IsWithin limit (strip value) w h in rw e (refl, within)

  -- what holds of the sub-fields that are kept, against those that came
  record Pieces (limit : ℕ) (ps qs : List Text) : Type 0 where
    count : length qs ≡ length ps
    shorter : weight qs ≤ weight ps
    safe : All (λ q. all_of group_char q ≡ true) qs
    free : All (λ p. occurrences b',' p ≡ 0) ps → All (λ q. occurrences b',' q ≡ 0) qs

  word-group : (s : Text) → all_of word_char s ≡ true → all_of group_char s ≡ true
  word-group [] h = refl
  word-group (c ∷ s) h = ground (arith, word-group s)

  safe_piece-safe :
      (limit : ℕ) (p q : Text)
      → safe_piece limit p ≡ some q
      → (length q ≤ length p)
        × (all_of group_char q ≡ true)
        × (occurrences b',' q ≤ occurrences b',' p)
  unfolding safe_piece strip
  safe_piece-safe limit [] q h =
      let e : q ≡ [] = ground arith in rw e (omega arith, refl, omega arith)
  safe_piece-safe limit (c ∷ s) q h =
      let (e, (long, safe)) = safe_word-IsWithin limit (c ∷ s) q h in
      (
        rw e (length-strip_by u.is_space (c ∷ s)),
        word-group q safe,
        rw e (occurrences-strip_by b',' u.is_space (c ∷ s)),
      )

  safe_pieces-Pieces :
      (limit : ℕ) (ps qs : List Text) → safe_pieces limit ps ≡ some qs → Pieces limit ps qs
  unfolding safe_pieces strip
  safe_pieces-Pieces limit [] qs h =
      let e : qs ≡ [] = ground arith in
      rw e (record { count = refl; shorter = omega arith; safe = tt; free = λ h. tt })
  safe_pieces-Pieces limit (p ∷ ps) qs h =
      go (safe_piece limit (strip p)) (safe_pieces limit ps)
        (λ rest. safe_pieces-Pieces limit ps rest) refl refl h
    where
      go :
          (o : Option Text) (os : Option (List Text))
          → ((rest : List Text) → safe_pieces limit ps ≡ some rest → Pieces limit ps rest)
          → safe_piece limit (strip p) ≡ o
          → safe_pieces limit ps ≡ os
          → cons_piece o os ≡ some qs
          → Pieces limit (p ∷ ps) qs
      go none os ih e f h = absurd (cc h)
      go (some q) none ih e f h = absurd (cc h)
      go (some q) (some rest) ih e f h =
          let (shorter, safe, fewer) = safe_piece-safe limit (strip p) q e in
          let r = ih rest f in
          let same : qs ≡ q ∷ rest = ground arith in
          rw same (record {
            count = omega (arith, r.count);
            shorter = omega (arith, shorter, length-strip_by u.is_space p, r.shorter);
            safe = (safe, r.safe);
            free = λ (bare, all).
                (omega (arith, bare, fewer, occurrences-strip_by b',' u.is_space p), r.free all);
          })

  joined-IsWithin :
      (limit max_parts : ℕ) (s g : Text) (ps : List Text)
      → length s ≤ limit
      → length ps ≤ max_parts
      → split b',' s ≡ ps
      → joined (safe_pieces limit ps) ≡ some g
      → IsWithin group_char limit g
        × (length (split b',' g) ≤ max_parts)
        × (length (split b',' g) ≡ length (split b',' s))
  unfolding joined
  joined-IsWithin limit max_parts s g ps short few e h = go (safe_pieces limit ps) refl h
    where
      longer : (qs : List Text) → Pieces limit ps qs → length (join b',' qs) ≤ length s
      longer qs r =
          omega (arith, length-join_le b',' qs, r.shorter, ap weight e, weight-split b',' s)

      -- as many parts as there came
      parts :
          (qs : List Text)
          → Pieces limit ps qs
          → g ≡ join b',' qs
          → length (split b',' g) ≡ length ps
      parts [] r same =
          let (p, more, filled) = split_ne b',' s in
          let zero_parts : 0 ≡ suc (length more) = r.count ∙ ap length (sym e ∙ filled) in
          absurd (omega (arith, zero_parts))
      parts (q ∷ qs) r same =
          ap (λ t. length (split b',' t)) same
          ∙ length-split-join b',' q qs
              (r.free (subst (All (λ p. occurrences b',' p ≡ 0)) e (split-free b',' s)))
          ∙ r.count

      go :
          (os : Option (List Text))
          → safe_pieces limit ps ≡ os
          → joined os ≡ some g
          → IsWithin group_char limit g
            × (length (split b',' g) ≤ max_parts)
            × (length (split b',' g) ≡ length (split b',' s))
      go none f h = absurd (cc h)
      go (some qs) f h =
          let r = safe_pieces-Pieces limit ps qs f in
          let same : g ≡ join b',' qs = ground arith in
          (
            rw same
                (omega (arith, longer qs r), all_of-join group_char b',' qs (ground arith) r.safe),
            omega (arith, few, parts qs r same),
            parts qs r same ∙ ap length (sym e),
          )

  safe_pieces_of-IsWithin :
      (limit max_parts : ℕ) (s g : Text)
      → safe_pieces_of limit max_parts s ≡ some g
      → IsWithin group_char limit g
        × (length (split b',' g) ≤ max_parts)
        × (length (split b',' g) ≡ length (split b',' s))
  unfolding safe_pieces_of
  safe_pieces_of-IsWithin limit max_parts [] g h = absurd (cc h)
  safe_pieces_of-IsWithin limit max_parts (c ∷ s) g h =
      joined-IsWithin limit max_parts (c ∷ s) g (split b',' (c ∷ s)) (ground arith) (ground arith)
        refl (ground arith)

  -- What `_safe_group` returns is no longer than the limit; it splits at the commas into as many
  -- parts as the stripped value does, which are at most those that are allowed; and every character
  -- of it is alphanumeric, a space, a dot, a hyphen or a comma.
  pub safe_group-IsWithin :
      (limit max_parts : ℕ) (value g : Text)
      → safe_group limit max_parts (some value) ≡ some g
      → IsWithin group_char limit g
        × (length (split b',' g) ≤ max_parts)
        × (length (split b',' g) ≡ length (split b',' (strip value)))
  unfolding safe_group
  safe_group-IsWithin limit max_parts value g h =
      safe_pieces_of-IsWithin limit max_parts (strip value) g h
