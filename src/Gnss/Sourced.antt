-- ===== src/Gnss/Sourced.antt =====
-- Where a fix of src/uniden_r8/gnss.py comes from, and when it is given out.
use unidenr8_bluetooth.Prelude.{
  ℕ, ◌+◌, ◌≡◌, ◌⊎◌, refl, Bool, true, false, Option, none, some, List, [], ◌∷◌, ◌==◌, ltb, if-each,
  if◌then◌else◌, arith, length, Any, Bool-cases, inl, inr, ap, sym, ◌∙◌, subst,
}
use unidenr8_bluetooth.Prelude.Int.{ℤ, pos, sub_ℕ, ◌≤ℤ◌}
use unidenr8_bluetooth.Runtime.Float.{Float, max_float}
use unidenr8_bluetooth.Runtime.Text.{Text, codes, text_eq, text_eq_sound}
use unidenr8_bluetooth.Runtime.Unicode.{Unicode}
use unidenr8_bluetooth.Runtime.Json.{
  Json, null, bool, int, float, text, array, object, Members, get,
}
use unidenr8_bluetooth.Gnss.{
  Fix, Detailed, GnssClient, Line, max_line_bytes, valid, new_client, parse_tpv, parse_sky,
  whole_mode, number, number_value, age_seconds, detailed, fresh_of, current_fix, shown, status_fix,
  take_report, take_payload, consume, read_lines, session,
}

module _ {F : Type 0} ⦃f : Float F⦄ ⦃u : Unicode⦄ (loads : Text → Option (Json F)) where
  -- the fix is what a line's position report says, but for the satellites
  abbrev pub From : Fix F → Line → Type 0
  From x line =
      (payload : Members F) × (loads (u.decode line.raw) ≡ some (object payload))
      × (get (codes "class") payload ≡ some (text (codes "TPV")))
      × (record x { satellites = none } ≡ parse_tpv payload line.mono line.wall)
      × (x.mode ≡ whole_mode (get (codes "mode") payload))
      × (x.lat ≡ number_value (get (codes "lat") payload))
      × (x.lon ≡ number_value (get (codes "lon") payload))
      × (x.monotonic_ns ≡ line.mono)

  number-one :
      (name : Text) (payload : Members F)
      → number (name ∷ []) payload ≡ number_value (get name payload)
  unfolding number
  number-one name payload = go (number_value (get name payload))
    where
      go : (o : Option F) → elim o [ some a ↦ some a | none ↦ number [] payload ] ≡ o
      go none = refl
      go (some a) = refl

  -- the last fix is as it was, or from some of the lines
  abbrev Fixed : List Line → Option (Fix F) → Option (Fix F) → Type 0
  Fixed lines before after =
      (after ≡ before) ⊎ ((x : Fix F) × (after ≡ some x) × Any (From x) lines)

  -- after some lines: the last fix, and the settings as they were
  abbrev Kept : List Line → GnssClient F → GnssClient F → Type 0
  Kept lines c c' =
      Fixed lines c.last_fix c'.last_fix
      × (c'.record_coordinates ≡ c.record_coordinates)
      × (c'.stale_after_seconds ≡ c.stale_after_seconds)

  report-Kept :
      (o : Option (Json F)) (payload : Members F) (line : Line) (c : GnssClient F)
      → loads (u.decode line.raw) ≡ some (object payload)
      → get (codes "class") payload ≡ o
      → Kept (line ∷ []) c (take_report o payload line c)
  unfolding take_report parse_tpv
  report-Kept none payload line c e k = (inl refl, refl, refl)
  report-Kept (some null) payload line c e k = (inl refl, refl, refl)
  report-Kept (some (bool b)) payload line c e k = (inl refl, refl, refl)
  report-Kept (some (int n)) payload line c e k = (inl refl, refl, refl)
  report-Kept (some (float a)) payload line c e k = (inl refl, refl, refl)
  report-Kept (some (array items)) payload line c e k = (inl refl, refl, refl)
  report-Kept (some (object members)) payload line c e k = (inl refl, refl, refl)
  report-Kept (some (text class)) payload line c e k =
      let P : GnssClient F → Type 0 = λ c'. Kept (line ∷ []) c c' in
      if-each P (text_eq class (codes "TPV")) _ _
        (λ tpv. (
          inr (
            _,
            refl,
            inl (
              payload,
              e,
              k ∙ ap (λ t. some (text t)) (text_eq_sound class (codes "TPV") tpv),
              refl,
              refl,
              number-one (codes "lat") payload,
              number-one (codes "lon") payload,
              refl,
            ),
          ),
          refl,
          refl,
        ))
        (λ _.
          if-each P (text_eq class (codes "SKY")) _ _ (λ _. sky (parse_sky payload))
            (λ _. (inl refl, refl, refl)))
    where
      sky :
          (o : Option ℤ)
          → Kept (line ∷ []) c (elim o as (λ _. GnssClient F) [
            | none ↦ c
            | some used ↦ record c { used_satellites = some used }
          ])
      sky none = (inl refl, refl, refl)
      sky (some used) = (inl refl, refl, refl)

  payload-Kept :
      (o : Option (Json F)) (line : Line) (c : GnssClient F)
      → loads (u.decode line.raw) ≡ o
      → Kept (line ∷ []) c (take_payload o line c)
  unfolding take_payload
  payload-Kept none line c e = (inl refl, refl, refl)
  payload-Kept (some null) line c e = (inl refl, refl, refl)
  payload-Kept (some (bool b)) line c e = (inl refl, refl, refl)
  payload-Kept (some (int n)) line c e = (inl refl, refl, refl)
  payload-Kept (some (float a)) line c e = (inl refl, refl, refl)
  payload-Kept (some (text s)) line c e = (inl refl, refl, refl)
  payload-Kept (some (array items)) line c e = (inl refl, refl, refl)
  payload-Kept (some (object payload)) line c e =
      report-Kept (get (codes "class") payload) payload line c e refl

  -- a line, then the later ones
  then-Fixed :
      (line : Line) (lines : List Line) (a b c : Option (Fix F))
      → Fixed (line ∷ []) a b
      → Fixed lines b c
      → Fixed (line ∷ lines) a c
  then-Fixed line lines a b c h (inr (x, e, from)) = inr (x, e, inr from)
  then-Fixed line lines a b c (inl same) (inl e) = inl (e ∙ same)
  then-Fixed line lines a b c (inr (x, found, inl from)) (inl e) = inr (x, e ∙ found, inl from)
  then-Fixed line lines a b c (inr (x, found, inr bad)) (inl e) = absurd bad

  then-Kept :
      (line : Line) (lines : List Line) (a b c : GnssClient F)
      → Kept (line ∷ []) a b
      → Kept lines b c
      → Kept (line ∷ lines) a c
  then-Kept line lines a b c (h, p, q) (h', p', q') =
      (then-Fixed line lines a.last_fix b.last_fix c.last_fix h h', p' ∙ p, q' ∙ q)

  read_lines-Kept : (lines : List Line) (c : GnssClient F) → Kept lines c (read_lines loads lines c)
  unfolding read_lines consume
  read_lines-Kept [] c = (inl refl, refl, refl)
  read_lines-Kept (line ∷ lines) c =
      let P : GnssClient F → Type 0 = λ c'. Kept (line ∷ lines) c c' in
      let marked : GnssClient F = record c { malformed = c.malformed + 1 } in
      if-each P (length line.raw == 0) _ _ (λ _. (inl refl, refl, refl))
        (λ _.
          if-each P (ltb max_line_bytes (length line.raw)) _ _
            (λ _.
              then-Kept line lines c marked (read_lines loads lines marked) (inl refl, refl, refl)
                (read_lines-Kept lines marked))
            (λ _.
              then-Kept line lines c (consume loads line c)
                (read_lines loads lines (consume loads line c))
                (payload-Kept (loads (u.decode line.raw)) line c refl)
                (read_lines-Kept lines (consume loads line c))))

  -- what is shown has the coordinates of the fix if the client is to record them, else none
  abbrev pub IsShared : Bool → Fix F → Detailed F → Type 0
  IsShared true x d =
      (d.shown_lat ≡ x.lat) × (d.shown_lon ≡ x.lon) × (d.coordinates_withheld ≡ false)
  IsShared false x d = (d.shown_lat ≡ none) × (d.shown_lon ≡ none) × (d.coordinates_withheld ≡ true)

  -- the seconds from the stamp of a fix to a time, in nanoseconds both; none before the stamp
  abbrev pub seconds_since : ℕ → Fix F → F
  seconds_since now x =
      let passed =
        f.div (f.ratio (sub_ℕ now x.monotonic_ns) (pos 1)) (f.ratio (pos 1_000_000_000) (pos 1)) in
      if f.lt (f.ratio (pos 0) (pos 1)) passed then passed else f.ratio (pos 0) (pos 1)

  -- a fix that is given out at a time
  abbrev pub IsGiven : Bool → F → List Line → ℕ → Detailed F → Type 0
  IsGiven opted_in stale lines now d =
      (x : Fix F) × ((pos 2 ≤ℤ x.mode) × (d.fix_mode ≡ x.mode) × (d.is_valid ≡ true))
      × (f.lt stale (seconds_since now x) ≡ false)
      × IsShared opted_in x d
      × Any (From x) lines

  detailed-IsShared :
      (opted_in : Bool) (x : Fix F) (d : Detailed F)
      → d ≡ detailed opted_in x
      → IsShared opted_in x d
  unfolding detailed
  detailed-IsShared true x d e = rw e (refl, refl, refl)
  detailed-IsShared false x d e = rw e (refl, refl, refl)

  detailed-mode :
      (opted_in : Bool) (x : Fix F) (d : Detailed F)
      → d ≡ detailed opted_in x
      → valid x ≡ true
      → (pos 2 ≤ℤ x.mode) × (d.fix_mode ≡ x.mode) × (d.is_valid ≡ true)
  unfolding detailed valid
  detailed-mode opted_in x d e on = (ground arith, rw e refl, rw e on)

  age-seconds_since :
      (stale : F) (now : ℕ) (x : Fix F)
      → f.lt stale (age_seconds now x) ≡ false
      → f.lt stale (seconds_since now x) ≡ false
  unfolding age_seconds max_float
  age-seconds_since stale now x h = h

  same_shown :
      (a b : Bool) (s t : F) (now : ℕ) (o : Option (Fix F))
      → a ≡ b
      → s ≡ t
      → shown a (fresh_of s now o) ≡ shown b (fresh_of t now o)
  same_shown a b s t now o p q = rw (p, q) refl

  shown-given :
      (opted_in : Bool) (stale : F) (now : ℕ) (o : Option (Fix F)) (d : Detailed F)
      → shown opted_in (fresh_of stale now o) ≡ some d
      → (x : Fix F) × (o ≡ some x)
        × (d ≡ detailed opted_in x)
        × (valid x ≡ true)
        × (f.lt stale (age_seconds now x) ≡ false)
  shown-given opted_in stale now none d h = absurd (cc h)
  shown-given opted_in stale now (some x) d h = elim (Bool-cases (valid x)) [
    | inr off ↦ absurd (cc (rw off at h))
    | inl on ↦ elim (Bool-cases (f.lt stale (age_seconds now x))) [
      | inl old ↦ absurd (cc (rw (on, old) at h))
      | inr young ↦ (x, refl, cc (rw (on, young) at h), on, young)
    ]
  ]

  -- Whatever lines a new client reads in a session: the fix that its status shows at a time is what
  -- one of the lines reported, with its mode, latitude and longitude, but for the satellites; the
  -- reported mode, which is the one shown, is 2 or more; the seconds since the line was read are no
  -- more than the client tolerates; and what is shown has the fix's coordinates if the client was
  -- made to record them, and otherwise none, with the note that they are withheld.
  pub status_fix-IsGiven :
      (opted_in : Bool) (stale : F) (lines : List Line) (now : ℕ) (d : Detailed F)
      → status_fix now (session loads lines (new_client opted_in stale)) ≡ some d
      → IsGiven opted_in stale lines now d
  unfolding session status_fix current_fix
  status_fix-IsGiven opted_in stale lines now d h =
      let c : GnssClient F = record (new_client opted_in stale) {
        connected = true;
        connects = 1;
      } in
      let after : GnssClient F = read_lines loads lines c in
      let (fixed, opted, aged) = read_lines-Kept lines c in
      let seen : shown opted_in (fresh_of stale now after.last_fix) ≡ some d =
        sym (
          same_shown after.record_coordinates opted_in after.stale_after_seconds stale now
            after.last_fix opted aged)
        ∙ h in
      let (x, e, copied, on, young) = shown-given opted_in stale now after.last_fix d seen in
      elim fixed [
        | inl same ↦ let bad : some x ≡ none = sym e ∙ same in absurd (cc bad)
        | inr (y, found, from) ↦
            let both : some y ≡ some x = sym found ∙ e in
            let same : y ≡ x = cc both in
            (
              x,
              detailed-mode opted_in x d copied on,
              age-seconds_since stale now x young,
              detailed-IsShared opted_in x d copied,
              subst (λ z. Any (From z) lines) same from,
            )
      ]
