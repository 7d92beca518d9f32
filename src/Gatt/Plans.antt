-- ===== src/Gatt/Plans.antt =====
-- The three kinds of readable UUID, and the gates of src/uniden_r8/gatt.py against the plans.
use unidenr8_bluetooth.Prelude.{
  ◌≡◌, ◌↔◌, ◌⊎◌, refl, Bool, true, false, List, all_of, Bool-cases, arith, not, if◌then◌else◌, ◌&&◌,
  inl, inr, ap, sym, ◌∙◌,
}
use unidenr8_bluetooth.Runtime.Text.{Text, mem_text, text_eq}
use unidenr8_bluetooth.Runtime.Unicode.{Unicode}
use unidenr8_bluetooth.Gatt.Catalogue.{
  catalogue, readable_uuids, notify_uuids, forbidden_uuids, survey_listen_uuids, live_read_uuids,
  live_notify_uuids, inspect_read_uuids, identity_read_plan, inspect_read_plan,
}
use unidenr8_bluetooth.Gatt.{
  Outcome, returned, write_refused, normalize_uuid, assert_readable, assert_notifiable, narrowed_to,
  assert_inspect_readable, assert_live_readable, assert_live_notifiable, assert_survey_notifiable,
}
use unidenr8_bluetooth.Gatt.Passed.{
  listed-test, KeepsMarks, allowed_in-Passed, allowed_in-returned, narrowed_to-Passed,
  narrowed_to-other,
}
use unidenr8_bluetooth.Gatt.Gates.{
  Operation, probe_read, probe_notify, live_read, live_notify, inspect_read, survey_notify, planned,
  gate, gate-Safe,
}
use unidenr8_bluetooth.Gatt.{and_then}

module _ ⦃u : Unicode⦄ where
  live-decided :
      (uuid c : Text)
      → assert_readable uuid ≡ returned c
      → assert_live_readable uuid
        ≡ (if mem_text c live_read_uuids then returned c else write_refused)
  unfolding assert_live_readable assert_readable
  live-decided uuid c h =
      ap (narrowed_to live_read_uuids) h
      ∙ narrowed_to-other live_read_uuids c (allowed_in-Passed readable_uuids uuid c h).described

  inspect-decided :
      (uuid c : Text)
      → assert_readable uuid ≡ returned c
      → assert_inspect_readable uuid
        ≡ (if mem_text c inspect_read_uuids then returned c else write_refused)
  unfolding assert_inspect_readable assert_readable
  inspect-decided uuid c h =
      ap (narrowed_to inspect_read_uuids) h
      ∙ narrowed_to-other inspect_read_uuids c (allowed_in-Passed readable_uuids uuid c h).described

  -- the readable UUIDs fall into three sets
  abbrev one_set : Text → Bool
  one_set t =
      if mem_text t live_read_uuids
      then not (mem_text t inspect_read_uuids) && not (mem_text t identity_read_plan)
      else if mem_text t inspect_read_uuids
      then not (mem_text t identity_read_plan)
      else mem_text t identity_read_plan

  readable-one_set : (uuid c : Text) → assert_readable uuid ≡ returned c → one_set c ≡ true
  unfolding assert_readable readable_uuids mem_text text_eq catalogue
  readable-one_set uuid c h =
      listed-test one_set c readable_uuids refl (allowed_in-Passed readable_uuids uuid c h).listed

  -- what the two narrower gates make of a UUID, and whether the identity plan has it
  abbrev pub Kinds : Outcome Text → Outcome Text → Bool → Text → Type 0
  Kinds live inspect identity c =
      ((live ≡ returned c) × (inspect ≡ write_refused) × (identity ≡ false))
      ⊎ ((live ≡ write_refused) × (inspect ≡ returned c) × (identity ≡ false))
      ⊎ ((live ≡ write_refused) × (inspect ≡ write_refused) × (identity ≡ true))

  Kinds-answer :
      (l i d : Bool) (c : Text)
      → (if l then not i && not d else if i then not d else d) ≡ true
      → Kinds
          (if l then returned c else write_refused)
          (if i then returned c else write_refused)
          d
          c
  Kinds-answer true false false c h = inl (refl, refl, refl)
  Kinds-answer false true false c h = inr (inl (refl, refl, refl))
  Kinds-answer false false true c h = inr (inr (refl, refl, refl))
  Kinds-answer true true d c h = absurd (cc h)
  Kinds-answer true false true c h = absurd (cc h)
  Kinds-answer false true true c h = absurd (cc h)
  Kinds-answer false false false c h = absurd (cc h)

  -- A UUID that assert_readable returns is of exactly one kind: the live gate returns it too, and
  -- the inspection gate refuses it; or the inspection gate returns it, and the live gate refuses
  -- it; or it is in the identity plan, and both refuse it. One of the first two kinds is not in the
  -- identity plan.
  pub assert_readable-Kinds :
      (uuid c : Text)
      → assert_readable uuid ≡ returned c
      → Kinds
          (assert_live_readable uuid)
          (assert_inspect_readable uuid)
          (mem_text c identity_read_plan)
          c
  assert_readable-Kinds uuid c h =
      rw (live-decided uuid c h, inspect-decided uuid c h)
        (Kinds-answer (mem_text c live_read_uuids) (mem_text c inspect_read_uuids)
          (mem_text c identity_read_plan) c (readable-one_set uuid c h))

  readable-returned :
      KeepsMarks
      → (uuid : Text) → mem_text (normalize_uuid uuid) (planned probe_read) ≡ true
      → assert_readable uuid ≡ returned (normalize_uuid uuid)
  unfolding assert_readable readable_uuids mem_text text_eq catalogue
  readable-returned k uuid h = allowed_in-returned k readable_uuids (planned probe_read) refl uuid h

  notifiable-returned :
      KeepsMarks
      → (uuid : Text) → mem_text (normalize_uuid uuid) (planned probe_notify) ≡ true
      → assert_notifiable uuid ≡ returned (normalize_uuid uuid)
  unfolding assert_notifiable notify_uuids mem_text text_eq catalogue
  notifiable-returned k uuid h =
      allowed_in-returned k notify_uuids (planned probe_notify) refl uuid h

  -- a narrower gate, from the wider one
  narrowed-returned :
      KeepsMarks
      → (narrow wide : List Text) (permitted : Outcome Text) (n : Text)
      → (mem_text n wide ≡ true → permitted ≡ returned n)
      → all_of (λ t. mem_text t wide) narrow ≡ true
      → mem_text n narrow ≡ true
      → narrowed_to narrow permitted ≡ returned n
  unfolding narrowed_to and_then
  narrowed-returned k narrow wide permitted n h sub listed =
      rw (h (listed-test (λ t. mem_text t wide) n narrow sub listed), listed) refl

  survey-returned :
      (uuid : Text)
      → mem_text (normalize_uuid uuid) survey_listen_uuids ≡ true
      → assert_survey_notifiable uuid ≡ returned (normalize_uuid uuid)
  unfolding assert_survey_notifiable mem_text text_eq
  survey-returned uuid h =
      let n = normalize_uuid uuid in
      let good = listed-test (λ t. not (mem_text t forbidden_uuids)) n survey_listen_uuids refl h in
      let allowed : mem_text n forbidden_uuids ≡ false = ground arith in rw (allowed, h) refl

  gate-returned :
      KeepsMarks
      → (op : Operation) (uuid : Text) → mem_text (normalize_uuid uuid) (planned op) ≡ true
      → gate op uuid ≡ returned (normalize_uuid uuid)
  unfolding assert_live_readable assert_live_notifiable assert_inspect_readable mem_text text_eq
      assert_survey_notifiable
  gate-returned k probe_read uuid h = readable-returned k uuid h
  gate-returned k probe_notify uuid h = notifiable-returned k uuid h
  gate-returned k live_read uuid h =
      narrowed-returned k live_read_uuids (planned probe_read) (assert_readable uuid)
        (normalize_uuid uuid) (readable-returned k uuid) refl h
  gate-returned k live_notify uuid h =
      narrowed-returned k live_notify_uuids (planned probe_notify) (assert_notifiable uuid)
        (normalize_uuid uuid) (notifiable-returned k uuid) refl h
  gate-returned k inspect_read uuid h =
      narrowed-returned k inspect_read_uuids (planned probe_read) (assert_readable uuid)
        (normalize_uuid uuid) (readable-returned k uuid) refl
        (listed-test (λ t. mem_text t inspect_read_uuids) (normalize_uuid uuid) inspect_read_plan
          refl h)
  gate-returned k survey_notify uuid h = survey-returned uuid h

  survey-listed :
      (uuid c : Text)
      → assert_survey_notifiable uuid ≡ returned c
      → mem_text c survey_listen_uuids ≡ true
  unfolding assert_survey_notifiable
  survey-listed uuid c h =
      let n = normalize_uuid uuid in
      elim (Bool-cases (mem_text n forbidden_uuids)) [
        | inl bad ↦ absurd (cc (rw bad at h))
        | inr good ↦ elim (Bool-cases (mem_text n survey_listen_uuids)) [
          | inr off ↦ absurd (cc (rw (good, off) at h))
          | inl on ↦
              let same : n ≡ c = cc (rw (good, on) at h) in
              ap (λ t. mem_text t survey_listen_uuids) (sym same) ∙ on
        ]
      ]

  gate-listed :
      (op : Operation) (uuid c : Text) → gate op uuid ≡ returned c → mem_text c (planned op) ≡ true
  unfolding assert_readable assert_notifiable assert_live_readable assert_live_notifiable
      assert_inspect_readable readable_uuids notify_uuids catalogue mem_text text_eq
  gate-listed probe_read uuid c h =
      listed-test (λ t. mem_text t (planned probe_read)) c readable_uuids refl
        (allowed_in-Passed readable_uuids uuid c h).listed
  gate-listed probe_notify uuid c h =
      listed-test (λ t. mem_text t (planned probe_notify)) c notify_uuids refl
        (allowed_in-Passed notify_uuids uuid c h).listed
  gate-listed live_read uuid c h = (narrowed_to-Passed live_read_uuids (assert_readable uuid) c h).1
  gate-listed live_notify uuid c h =
      (narrowed_to-Passed live_notify_uuids (assert_notifiable uuid) c h).1
  gate-listed inspect_read uuid c h =
      listed-test (λ t. mem_text t inspect_read_plan) c inspect_read_uuids refl
        (narrowed_to-Passed inspect_read_uuids (assert_readable uuid) c h).1
  gate-listed survey_notify uuid c h = survey-listed uuid c h

  -- If lower-casing keeps canonical UUIDs: each gate returns a UUID exactly if it is the normalised
  -- one and the plan of the operation has it (the reads or subscriptions of the probe plan, the
  -- telemetry and alert characteristics, the inspection plan, the command responses).
  pub gate-planned :
      KeepsMarks
      → (op : Operation) (uuid c : Text)
      → (gate op uuid ≡ returned c) ↔ ((c ≡ normalize_uuid uuid) × (mem_text c (planned op) ≡ true))
  gate-planned k op uuid c = (
    λ h. ((gate-Safe op uuid c h).0, gate-listed op uuid c h),
    λ (e, h). rw e (gate-returned k op uuid (ap (λ t. mem_text t (planned op)) (sym e) ∙ h)),
  )
