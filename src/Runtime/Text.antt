-- ===== src/Runtime/Text.antt =====
-- A Python `str` as its code points, and the methods of `str` that need no Unicode table.
pub mod Lengths
pub mod Pieces
use Prim.Native.Char.{code}
use unidenr8_bluetooth.Prelude.{
  ℕ, ◌≡◌, ◌≢◌, ◌↔◌, All, refl, Bool, true, false, ◌&&◌, ◌||◌, List, [], ◌∷◌, ◌++◌, String, arith,
  ◌==◌, if◌then◌else◌, reverse, Bool-cases, inl, inr, ap, sym, ◌∙◌,
}

abbrev pub Text : Type 0
Text = List ℕ

-- the code points of a literal
abbrev pub codes : String → Text
codes String.[] = []
codes (String.◌∷◌ c s) = code c ∷ codes s

unfoldable pub text_eq : Text → Text → Bool
text_eq [] [] = true
text_eq (a ∷ s) (b ∷ t) = a == b && text_eq s t
text_eq _ _ = false

pub text_eq_sound : (s t : Text) → text_eq s t ≡ true → s ≡ t
unfolding text_eq
text_eq_sound [] [] h = refl
text_eq_sound (a ∷ s) (b ∷ t) h = ground (arith, text_eq_sound s t)
text_eq_sound [] (b ∷ t) h = ground arith
text_eq_sound (a ∷ s) [] h = ground arith

pub text_eq_refl : (s : Text) → text_eq s s ≡ true
unfolding text_eq
text_eq_refl [] = refl
text_eq_refl (a ∷ s) = ground (arith, text_eq_refl s)

pub text_eq_iff : (s t : Text) → (text_eq s t ≡ true) ↔ (s ≡ t)
text_eq_iff s t = (text_eq_sound s t, λ e. ground (arith, text_eq_refl s))

-- without the characters at the front that pass a test
drop_while : (ℕ → Bool) → Text → Text
drop_while test [] = []
drop_while test (c ∷ s) = let rest = drop_while test s in if test c then rest else c ∷ s

-- `s.strip(chars)`
unfoldable pub strip_by : (ℕ → Bool) → Text → Text
unfolding drop_while
strip_by test s = reverse (drop_while test (reverse (drop_while test s)))

-- `c in s`, for one character
unfoldable pub contains : ℕ → Text → Bool
contains c [] = false
contains c (d ∷ s) = d == c || contains c s

-- `text in frozenset(...)`
unfoldable pub mem_text : Text → List Text → Bool
mem_text s [] = false
mem_text s (t ∷ ts) = text_eq s t || mem_text s ts

pub mem_text-none : (s : Text) (ts : List Text) → (mem_text s ts ≡ false) ↔ All (λ t. s ≢ t) ts
unfolding mem_text
mem_text-none s [] = (λ h. tt, λ h. refl)
mem_text-none s (t ∷ ts) =
    let (there, back) = mem_text-none s ts in
    (
      λ h. (λ e. absurd (ground (arith, h, (text_eq_iff s t).1 e)), there (ground arith)),
      λ (other, all). elim (Bool-cases (text_eq s t)) [
        | inl same ↦ absurd (other (text_eq_sound s t same))
        | inr differ ↦ rw differ (back all)
      ],
    )

-- the pieces of `c ∷ s`, from those of `s`
push_first : Bool → ℕ → List Text → List Text
push_first true c pieces = [] ∷ pieces
push_first false c [] = (c ∷ []) ∷ []
push_first false c (p ∷ ps) = (c ∷ p) ∷ ps

-- `s.split(sep)` for a separator of one character: never empty
unfoldable pub split : ℕ → Text → List Text
unfolding push_first
split sep [] = [] ∷ []
split sep (c ∷ s) = push_first (c == sep) c (split sep s)

-- `sep.join(pieces)`
unfoldable pub join : ℕ → List Text → Text
join sep [] = []
join sep (p ∷ []) = p
join sep (p ∷ q ∷ ps) = p ++ (sep ∷ join sep (q ∷ ps))

pub split_ne : (sep : ℕ) (s : Text) → (p : Text) × (ps : List Text) × (split sep s ≡ p ∷ ps)
unfolding split
split_ne sep [] = ([], [], refl)
split_ne sep (c ∷ s) =
    let (p, ps, e) = split_ne sep s in
    elim (Bool-cases (c == sep)) [
      | inl h ↦ ([], p ∷ ps, rw (h, e))
      | inr h ↦ (c ∷ p, ps, rw (h, e))
    ]

join-push_first :
    (sep c : ℕ) (p : Text) (ps : List Text)
    → join sep (push_first (c == sep) c (p ∷ ps)) ≡ c ∷ join sep (p ∷ ps)
unfolding join push_first
join-push_first sep c p [] = ground arith
join-push_first sep c p (q ∷ ps) = ground arith

-- Joining the pieces of a text gives it back.
pub join-split : (sep : ℕ) (s : Text) → join sep (split sep s) ≡ s
unfolding split join
join-split sep [] = refl
join-split sep (c ∷ s) =
    let (p, ps, e) = split_ne sep s in
    rw e (join-push_first sep c p ps ∙ ap (◌∷◌ c) (ap (join sep) (sym e) ∙ join-split sep s))
