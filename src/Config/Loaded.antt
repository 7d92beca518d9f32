-- ===== src/Config/Loaded.antt =====
-- What `load_config` of src/uniden_r8/config.py accepts.
use unidenr8_bluetooth.Prelude.{
  ℕ, ◌%◌, ◌≡◌, refl, sym, subst, inl, inr, true, false, not, Option, none, some, List, [], ◌∷◌,
  any_of, All, Bool-cases, if-some, arith,
}
use unidenr8_bluetooth.Runtime.Float.{Float}
use unidenr8_bluetooth.Runtime.Text.{Text, codes, text_eq}
use unidenr8_bluetooth.Config.Schema.{
  Setting, flag, word, Field, Section, File, lookup, sections, is_private,
}
use unidenr8_bluetooth.Config.{
  build_section, with_section, build_all, is_known, setting_at, password_allowed, checked,
  load_config,
}
use unidenr8_bluetooth.Config.Tables.{IsSection, Stands, build_section-IsSection}

is_private-mode :
    (o : Option ℕ) → is_private o ≡ true → (mode : ℕ) × ((o ≡ some mode) × (mode % 64 ≡ 0))
is_private-mode none h = absurd (cc h)
is_private-mode (some mode) h = (mode, (refl, ground arith))

module _ {F : Type 0} ⦃f : Float F⦄ where
  -- the sections of a file
  abbrev pub AreSections : List (Text × List (Field F)) → File F → List (Text × Section F) → Type 0
  AreSections [] raw [] = Unit {0}
  AreSections ((name, fields) ∷ schema) raw ((name', section) ∷ config) =
      (name ≡ name')
      × (IsSection name fields (lookup name raw) section × AreSections schema raw config)
  AreSections _ raw _ = ⊥

  AllStand : List (Text × List (Field F)) → Type 0
  AllStand [] = Unit {0}
  AllStand ((name, fields) ∷ schema) = All (Stands fields) fields × AllStand schema

  with_section-some :
      (name : Text) (o : Option (Section F)) (rest : Option (List (Text × Section F)))
      (config : List (Text × Section F))
      → with_section name o rest ≡ some config
      → (section : Section F) × ((later : List (Text × Section F)) × ((o ≡ some section)
            × ((rest ≡ some later) × (config ≡ (name, section) ∷ later))))
  with_section-some name none rest config h = absurd (cc h)
  with_section-some name (some section) none config h = absurd (cc h)
  with_section-some name (some section) (some later) config h =
      (section, (later, (refl, (refl, ground arith))))

  build_all-AreSections :
      (schema : List (Text × List (Field F))) (raw : File F) (config : List (Text × Section F))
      → AllStand schema
      → build_all schema raw ≡ some config
      → AreSections schema raw config
  unfolding build_all AllStand
  build_all-AreSections [] raw config all h =
      let e : [] ≡ config = ground arith in subst (AreSections [] raw) e tt
  build_all-AreSections ((name, fields) ∷ schema) raw config (here, all) h =
      let (section, (later, (made, (rest, e)))) =
        with_section-some name (build_section name fields (lookup name raw)) (build_all schema raw)
          config h in
      subst (AreSections ((name, fields) ∷ schema) raw) (sym e) (
        refl,
        (
          build_section-IsSection name fields (lookup name raw) section here made,
          build_all-AreSections schema raw later all rest,
        ),
      )

  -- with the broker on, a password file is one that only its owner can use
  abbrev pub IsGuarded : (Text → Option ℕ) → Option (Setting F) → Option (Setting F) → Type 0
  IsGuarded mode_of (some (flag true)) (some (word (c ∷ path))) =
      (mode : ℕ) × ((mode_of (c ∷ path) ≡ some mode) × (mode % 64 ≡ 0))
  IsGuarded mode_of _ _ = Unit {0}

  any_known :
      (raw : File F)
      → any_of (λ entry. not (is_known entry)) raw ≡ false
      → All (λ entry. is_known entry ≡ true) raw
  any_known [] h = tt
  any_known (entry ∷ raw) h = (ground arith, any_known raw (ground arith))

  allowed-IsGuarded :
      (mode_of : Text → Option ℕ) (enabled path : Option (Setting F))
      → password_allowed mode_of enabled path ≡ true
      → IsGuarded mode_of enabled path
  allowed-IsGuarded mode_of (some (flag true)) (some (word (c ∷ path))) h =
      is_private-mode (mode_of (c ∷ path)) h
  allowed-IsGuarded mode_of enabled path h = tt

  checked-some :
      (mode_of : Text → Option ℕ) (o : Option (List (Text × Section F)))
      (config : List (Text × Section F))
      → checked mode_of o ≡ some config
      → (o ≡ some config)
        × (password_allowed mode_of
              (setting_at (codes "mqtt") (codes "enabled") config)
              (setting_at (codes "mqtt") (codes "password_file") config)
            ≡ true)
  checked-some mode_of none config h = absurd (cc h)
  checked-some mode_of (some made) config h =
      let (allowed, e) =
        if-some
          (password_allowed mode_of (setting_at (codes "mqtt") (codes "enabled") made)
            (setting_at (codes "mqtt") (codes "password_file") made))
          (some made) config h in
      let same : made ≡ config = ground arith in
      (
        e,
        subst
            (λ c.
              password_allowed mode_of (setting_at (codes "mqtt") (codes "enabled") c)
                (setting_at (codes "mqtt") (codes "password_file") c)
              ≡ true)
            same allowed,
      )

module _ (F : Type 0) ⦃f : Float F⦄ where
  -- each key of a section is its own
  sections-stand : AllStand {F = F} sections
  unfolding AllStand text_eq
  sections-stand = (
    (refl, (refl, (refl, (refl, (refl, (refl, tt)))))),
    (
      (refl, (refl, (refl, (refl, tt)))),
      (
        (refl, (refl, (refl, (refl, (refl, (refl, (refl, tt))))))),
        (
          (refl, (refl, (refl, (refl, (refl, tt))))),
          (
            (refl, (refl, (refl, (refl, (refl, (refl, (refl, (refl, (refl, tt))))))))),
            ((refl, (refl, (refl, (refl, tt)))), tt),
          ),
        ),
      ),
    ),
  )

  -- A file that load_config accepts has no section and no key that is unknown; each setting of the
  -- result has its default if the file does not name it, else the value of the file, of the
  -- setting's kind and within its range; and with the broker on, a password file that is named
  -- exists and gives no permission to group or others.
  pub load_config-IsLoaded :
      (mode_of : Text → Option ℕ) (raw : File F) (config : List (Text × Section F))
      → load_config mode_of raw ≡ some config
      → All (λ entry. is_known entry ≡ true) raw
        × (AreSections sections raw config
            × IsGuarded mode_of
                (setting_at (codes "mqtt") (codes "enabled") config)
                (setting_at (codes "mqtt") (codes "password_file") config))
  unfolding load_config
  load_config-IsLoaded mode_of raw config h =
      elim (Bool-cases (any_of (λ entry. not (is_known entry)) raw)) [
        | inl bad ↦ absurd (cc (rw bad at h))
        | inr good ↦
            let (made, allowed) =
              checked-some mode_of (build_all sections raw) config (rw good at h) in
            (
              any_known raw good,
              (
                build_all-AreSections sections raw config sections-stand made,
                allowed-IsGuarded mode_of _ _ allowed,
              ),
            )
      ]
