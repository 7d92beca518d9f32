-- ===== src/Gatt/Gates.antt =====
-- What the gates of src/uniden_r8/gatt.py let through, against the catalogue and the plans.
use unidenr8_bluetooth.Prelude.{
  ◌≡◌, ◌≢◌, refl, Bool, true, false, List, [], ◌∷◌, map, keep, Any, Bool-cases, arith, ◌&&◌, inl,
  inr, ap, sym, ◌∙◌, subst,
}
use unidenr8_bluetooth.Runtime.Text.{Text, mem_text, text_eq}
use unidenr8_bluetooth.Runtime.Unicode.{Unicode}
use unidenr8_bluetooth.Gatt.Catalogue.{
  Characteristic, catalogue, may_read, may_notify, readable_uuids, notify_uuids, forbidden_uuids,
  survey_listen_uuids, live_read_uuids, live_notify_uuids, inspect_read_uuids, inspect_read_plan,
  command_write_uuid, command_response_uuid, telemetry_uuid, alert_uuid, probe_plan, Verb, read,
  notify,
}
use unidenr8_bluetooth.Gatt.{
  Outcome, returned, normalize_uuid, assert_readable, assert_notifiable, assert_inspect_readable,
  assert_live_readable, assert_live_notifiable, assert_survey_notifiable,
}
use unidenr8_bluetooth.Gatt.Passed.{listed-test, by_uuid-Any, allowed_in-Passed, narrowed_to-Passed}

-- the operations that have a gate
pub data Operation : Type 0 where
  probe_read : Operation
  probe_notify : Operation
  live_read : Operation
  live_notify : Operation
  inspect_read : Operation
  survey_notify : Operation

-- what the device must offer for an operation
abbrev pub offers : Operation → Characteristic → Bool
offers probe_read c = c.readable
offers probe_notify c = c.notifies
offers live_read c = c.readable
offers live_notify c = c.notifies
offers inspect_read c = c.readable
offers survey_notify c = c.notifies

-- the entries of a plan that have a verb
abbrev of_verb : Verb → Verb × Text → Bool
of_verb read (read, uuid) = true
of_verb notify (notify, uuid) = true
of_verb _ _ = false

abbrev pub planned : Operation → List Text
planned probe_read = map (λ step. step.1) (keep (of_verb read) probe_plan)
planned probe_notify = map (λ step. step.1) (keep (of_verb notify) probe_plan)
planned live_read = telemetry_uuid ∷ alert_uuid ∷ []
planned live_notify = telemetry_uuid ∷ alert_uuid ∷ []
planned inspect_read = inspect_read_plan
planned survey_notify = command_response_uuid ∷ []

-- the entry of the command responses
abbrev answers : Characteristic → Bool
answers c = text_eq c.uuid command_response_uuid && c.notifies

module _ ⦃u : Unicode⦄ where
  abbrev pub gate : Operation → Text → Outcome Text
  gate probe_read uuid = assert_readable uuid
  gate probe_notify uuid = assert_notifiable uuid
  gate live_read uuid = assert_live_readable uuid
  gate live_notify uuid = assert_live_notifiable uuid
  gate inspect_read uuid = assert_inspect_readable uuid
  gate survey_notify uuid = assert_survey_notifiable uuid

  -- what the gates that look into the catalogue return
  abbrev pub Safe : Operation → Text → Text → Type 0
  Safe op uuid c =
      (c ≡ normalize_uuid uuid)
      × (c ≢ command_write_uuid)
      × Any (λ e. (c ≡ e.uuid) × (offers op e ≡ true)) catalogue

  not_forbidden : (c : Text) → mem_text c forbidden_uuids ≡ false → c ≢ command_write_uuid
  unfolding mem_text text_eq
  not_forbidden c h e = absurd (cc (sym h ∙ ap (λ t. mem_text t forbidden_uuids) e ∙ here))
    where
      here : mem_text command_write_uuid forbidden_uuids ≡ true
      here = refl

  readable-Safe : (uuid c : Text) → assert_readable uuid ≡ returned c → Safe probe_read uuid c
  unfolding assert_readable readable_uuids
  readable-Safe uuid c h =
      let p = allowed_in-Passed readable_uuids uuid c h in
      (
        p.normal,
        not_forbidden c p.allowed,
        by_uuid-Any c may_read (λ e. e.readable) (λ e k. ground arith) catalogue p.listed,
      )

  notifiable-Safe : (uuid c : Text) → assert_notifiable uuid ≡ returned c → Safe probe_notify uuid c
  unfolding assert_notifiable notify_uuids
  notifiable-Safe uuid c h =
      let p = allowed_in-Passed notify_uuids uuid c h in
      (
        p.normal,
        not_forbidden c p.allowed,
        by_uuid-Any c may_notify (λ e. e.notifies) (λ e k. ground arith) catalogue p.listed,
      )

  survey-Safe :
      (uuid c : Text) → assert_survey_notifiable uuid ≡ returned c → Safe survey_notify uuid c
  unfolding assert_survey_notifiable mem_text text_eq catalogue
  survey-Safe uuid c h =
      let n = normalize_uuid uuid in
      elim (Bool-cases (mem_text n forbidden_uuids)) [
        | inl bad ↦ absurd (cc (rw bad at h))
        | inr good ↦ elim (Bool-cases (mem_text n survey_listen_uuids)) [
          | inr off ↦ absurd (cc (rw (good, off) at h))
          | inl on ↦
              let same : n ≡ c = cc (rw (good, on) at h) in
              subst (λ t. Safe survey_notify uuid t) same
                (
                  refl,
                  not_forbidden n good,
                  by_uuid-Any n answers (λ e. e.notifies) (λ e k. ground arith) catalogue
                      (listed-test (λ t. mem_text t (map (λ e. e.uuid) (keep answers catalogue))) n
                        survey_listen_uuids refl on),
                )
        ]
      ]

  -- Whatever the spelling of the UUID: a UUID that any of the six gates returns is the normalised
  -- one, is not the command-write characteristic, and is in the catalogue as one that the device
  -- offers for the operation.
  pub gate-Safe : (op : Operation) (uuid c : Text) → gate op uuid ≡ returned c → Safe op uuid c
  unfolding assert_live_readable assert_live_notifiable assert_inspect_readable
  gate-Safe probe_read uuid c h = readable-Safe uuid c h
  gate-Safe probe_notify uuid c h = notifiable-Safe uuid c h
  gate-Safe live_read uuid c h =
      readable-Safe uuid c (narrowed_to-Passed live_read_uuids (assert_readable uuid) c h).0
  gate-Safe live_notify uuid c h =
      notifiable-Safe uuid c (narrowed_to-Passed live_notify_uuids (assert_notifiable uuid) c h).0
  gate-Safe inspect_read uuid c h =
      readable-Safe uuid c (narrowed_to-Passed inspect_read_uuids (assert_readable uuid) c h).0
  gate-Safe survey_notify uuid c h = survey-Safe uuid c h
