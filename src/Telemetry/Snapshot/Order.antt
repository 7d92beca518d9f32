-- ===== src/Telemetry/Snapshot/Order.antt =====
-- The slots of a snapshot against the segments of its text, and the counters.
use mathlib.Core.List.{append_assoc, append-nil}
use unidenr8_bluetooth.Prelude.{
  ℕ, suc, ◌+◌, ◌≡◌, refl, true, false, ◌&&◌, Option, none, some, List, [], ◌∷◌, ◌++◌, ◌==◌, arith,
  is_some, ap, sym, ◌∙◌, Bool-cases, inl, inr, All, All-append, ◌≢◌, subst,
}
use unidenr8_bluetooth.Runtime.Text.{Text, codes, text_eq, text_eq_sound, split}
use unidenr8_bluetooth.Runtime.Float.{Float}
use unidenr8_bluetooth.Runtime.Unicode.{Unicode, strip}
use unidenr8_bluetooth.Telemetry.Alert.{Alert}
use unidenr8_bluetooth.Telemetry.Fields.{Payload, text_of}
use unidenr8_bluetooth.Telemetry.Snapshot.{
  Slot, SlotState, slot_active, slot_empty, slot_unreadable, AlertSnapshot, alerts, alerts_of,
  some_alert, parse_slot, read_slot, enter_slot, enter_segment, enter_segments,
  parse_alert_snapshot, snapshot_of,
}
use unidenr8_bluetooth.Telemetry.Snapshot.Public.{IsPublic, parse_slot-IsPublic}

module _ {F : Type 0} ⦃f : Float F⦄ ⦃u : Unicode⦄ where
  -- what a slot says of its segment: empty, decoded, or not decoded
  abbrev pub Says : SlotState → Text → ℕ → Option (Alert F) → Type 0
  Says slot_empty segment index o = (strip segment ≡ codes "0") × (o ≡ none)
  Says slot_active segment index o = (parse_slot (strip segment) index ≡ o) × (is_some o ≡ true)
  Says slot_unreadable segment index o =
      (parse_slot {F = F} (strip segment) index ≡ none)
      × (text_eq (strip segment) (codes "0") ≡ false)
      × (o ≡ none)

  -- one slot for each segment, in order, each under its index
  abbrev pub Mirrors : ℕ → List Text → List (Slot F) → Type 0
  Mirrors index [] [] = Unit {0}
  Mirrors index (s ∷ segments) (x ∷ slots) =
      (x.index ≡ index) × Says x.state s index x.alert × Mirrors (index + 1) segments slots
  Mirrors index _ _ = ⊥

  abbrev pub unreadable_count : List (Slot F) → ℕ
  unreadable_count [] = 0
  unreadable_count (s ∷ slots) = elim s.state [
    | slot_active ↦ unreadable_count slots
    | slot_empty ↦ unreadable_count slots
    | slot_unreadable ↦ suc (unreadable_count slots)
  ]

  -- what the rounds add to a snapshot
  record Adds (index : ℕ) (segments : List Text) (s r : AlertSnapshot F) : Type 0 where
    slots : List (Slot F)
    appended : r.slots ≡ s.slots ++ slots
    mirrors : Mirrors index segments slots
    counted : r.rejected_slots ≡ s.rejected_slots + unreadable_count slots
    graded : r.recognised ≡ s.recognised && unreadable_count slots == 0
    public : All IsPublic (alerts_of slots)

  -- one round
  record AddsOne (index : ℕ) (segment : Text) (s r : AlertSnapshot F) : Type 0 where
    slot : Slot F
    appended : r.slots ≡ s.slots ++ (slot ∷ [])
    at : slot.index ≡ index
    says : Says slot.state segment index slot.alert
    counted : r.rejected_slots ≡ s.rejected_slots + unreadable_count (slot ∷ [])
    graded : r.recognised ≡ s.recognised && unreadable_count (slot ∷ []) == 0
    public : All IsPublic (some_alert slot.alert)

  enter_segment-AddsOne :
      (index : ℕ) (segment : Text) (s : AlertSnapshot F)
      → AddsOne index segment s (enter_segment index segment s)
  unfolding enter_segment enter_slot read_slot some_alert
  enter_segment-AddsOne index segment s = elim (Bool-cases (text_eq (strip segment) (codes "0"))) [
    | inl empty ↦ rw empty (record {
      slot = record { index = index; state = slot_empty; alert = none; raw = none };
      appended = refl;
      at = refl;
      says = (text_eq_sound _ _ empty, refl);
      counted = omega arith;
      graded = ground arith;
      public = tt;
    })
    | inr filled ↦ rw filled (go (parse_slot (strip segment) index) refl filled)
  ]
    where
      go :
          (o : Option (Alert F))
          → parse_slot (strip segment) index ≡ o
          → text_eq (strip segment) (codes "0") ≡ false
          → AddsOne index segment s (enter_slot index (strip segment) o s)
      go none e filled = record {
        slot = read_slot index (strip segment) none;
        appended = refl;
        at = refl;
        says = (e, filled, refl);
        counted = omega arith;
        graded = ground arith;
        public = tt;
      }
      go (some a) e filled = record {
        slot = read_slot index (strip segment) (some a);
        appended = refl;
        at = refl;
        says = (e, refl);
        counted = omega arith;
        graded = ground arith;
        public = (parse_slot-IsPublic (strip segment) index a e, tt);
      }

  alerts_of-append : (xs ys : List (Slot F)) → alerts_of (xs ++ ys) ≡ alerts_of xs ++ alerts_of ys
  unfolding alerts_of
  alerts_of-append [] ys = refl
  alerts_of-append (x ∷ xs) ys =
      ap (λ l. some_alert x.alert ++ l) (alerts_of-append xs ys)
      ∙ sym (append_assoc (some_alert x.alert) (alerts_of xs) (alerts_of ys))

  unreadable_count-cons :
      (x : Slot F) (xs : List (Slot F))
      → unreadable_count (x ∷ xs) ≡ unreadable_count (x ∷ []) + unreadable_count xs
  unreadable_count-cons x xs = ground arith

  enter_segments-Adds :
      (index : ℕ) (segments : List Text) (s : AlertSnapshot F)
      → Adds index segments s (enter_segments index segments s)
  unfolding enter_segments alerts_of
  enter_segments-Adds index [] s = record {
    slots = [];
    appended = sym (append-nil s.slots);
    mirrors = tt;
    counted = omega arith;
    graded = ground arith;
    public = tt;
  }
  enter_segments-Adds index (segment ∷ segments) s =
      let one = enter_segment-AddsOne index segment s in
      let rest = enter_segments-Adds (index + 1) segments (enter_segment index segment s) in
      let split_count = unreadable_count-cons one.slot rest.slots in
      record {
        slots = one.slot ∷ rest.slots;
        appended =
            rest.appended
            ∙ ap (λ l. l ++ rest.slots) one.appended
            ∙ append_assoc s.slots (one.slot ∷ []) rest.slots;
        mirrors = (one.at, one.says, rest.mirrors);
        counted = omega (arith, rest.counted, one.counted, split_count);
        graded = ground (arith, rest.graded, one.graded, split_count);
        public =
            All-append IsPublic (some_alert one.slot.alert) (alerts_of rest.slots) one.public
              rest.public;
      }

module _ (F : Type 0) ⦃f : Float F⦄ ⦃u : Unicode⦄ where
  -- A snapshot of a text that is not empty has one slot for each segment between `&`s, in order
  -- and under its index. A slot is empty exactly for a segment that reads `0`; otherwise it holds
  -- the alert that `_parse_slot` made of the segment, or is unreadable because there was none. The
  -- number of rejected slots is that of the unreadable ones, and the snapshot is certain exactly if
  -- it has none of them.
  pub parse_alert_snapshot-Mirrors :
      (payload : Payload)
      → text_of payload ≢ []
      → Mirrors 0 (split b'&' (text_of payload)) (parse_alert_snapshot {F = F} payload).slots
        × ((parse_alert_snapshot {F = F} payload).rejected_slots
            ≡ unreadable_count (parse_alert_snapshot {F = F} payload).slots)
        × ((parse_alert_snapshot {F = F} payload).recognised
            ≡ unreadable_count (parse_alert_snapshot {F = F} payload).slots == 0)
  unfolding parse_alert_snapshot snapshot_of
  parse_alert_snapshot-Mirrors payload h = go (text_of payload) h
    where
      go :
          (text : Text)
          → text ≢ []
          → Mirrors 0 (split b'&' text) (snapshot_of {F = F} text).slots
            × ((snapshot_of {F = F} text).rejected_slots
                ≡ unreadable_count (snapshot_of {F = F} text).slots)
            × ((snapshot_of {F = F} text).recognised
                ≡ unreadable_count (snapshot_of {F = F} text).slots == 0)
      go [] h = absurd (h refl)
      go (c ∷ text) h =
          let a = enter_segments-Adds {F = F} 0 (split b'&' (c ∷ text)) (record {
            slots = [];
            recognised = true;
            rejected_slots = 0;
            unknown_mute_codes = 0;
          }) in
          let same : a.slots ≡ (snapshot_of {F = F} (c ∷ text)).slots = sym a.appended in
          let counts : unreadable_count a.slots
              ≡ unreadable_count (snapshot_of {F = F} (c ∷ text)).slots =
            ap unreadable_count same in
          (
            subst (Mirrors 0 (split b'&' (c ∷ text))) same a.mirrors,
            omega (arith, a.counted, counts),
            a.graded ∙ ap (λ n. n == 0) counts,
          )

  -- Every alert of a snapshot may be shown, whatever bytes arrived; and a payload that is empty
  -- when stripped is uncertain, with no slot at all.
  pub parse_alert_snapshot-IsPublic :
      (payload : Payload)
      → All IsPublic (alerts (parse_alert_snapshot {F = F} payload))
        × (text_of payload ≡ []
            → ((parse_alert_snapshot {F = F} payload).slots ≡ [])
              × ((parse_alert_snapshot {F = F} payload).recognised ≡ false))
  unfolding parse_alert_snapshot alerts snapshot_of alerts_of
  parse_alert_snapshot-IsPublic payload =
      (go (text_of payload), λ e. (rw (e, snapshot_of) refl, rw (e, snapshot_of) refl))
    where
      go : (text : Text) → All IsPublic (alerts_of (snapshot_of {F = F} text).slots)
      go [] = tt
      go (c ∷ text) =
          let a = enter_segments-Adds {F = F} 0 (split b'&' (c ∷ text)) (record {
            slots = [];
            recognised = true;
            rejected_slots = 0;
            unknown_mute_codes = 0;
          }) in
          subst (λ l. All IsPublic (alerts_of l)) (sym a.appended) a.public
