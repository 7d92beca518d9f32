-- ===== src/Config/Tables.antt =====
-- What `_build_section` of src/uniden_r8/config.py accepts.
use unidenr8_bluetooth.Prelude.{
  ◌≡◌, refl, sym, subst, ◌⊎◌, inl, inr, Option, none, some, List, [], ◌∷◌, All, Bool-cases,
  Option-cases, arith,
}
use unidenr8_bluetooth.Runtime.Float.{Float}
use unidenr8_bluetooth.Runtime.Text.{Text, text_eq, text_eq_sound}
use unidenr8_bluetooth.Config.Schema.{
  Toml, TopEntry, table, loose, Setting, Field, Section, lookup, find_field,
}
use unidenr8_bluetooth.Config.{
  with_setting, coerce_known, coerce_all, or_default, filled, filled_with, build_section,
}
use unidenr8_bluetooth.Config.Ranged.{Within, Given, coerce-Given}

module _ {F : Type 0} ⦃f : Float F⦄ where
  -- the values of a table, one by one
  Aligned : Text → List (Field F) → List (Text × Toml F) → Section F → Type 0
  Aligned section fields [] [] = Unit {0}
  Aligned section fields ((key, v) ∷ raw) ((key', s) ∷ values) =
      (key ≡ key')
      × ((coerce_known section key (find_field key fields) v ≡ some s)
          × Aligned section fields raw values)
  Aligned section fields _ _ = ⊥

  with_setting-some :
      (key : Text) (o : Option (Setting F)) (rest : Option (Section F)) (values : Section F)
      → with_setting key o rest ≡ some values
      → (s : Setting F) × ((later : Section F) × ((o ≡ some s)
            × ((rest ≡ some later) × (values ≡ (key, s) ∷ later))))
  with_setting-some key none rest values h = absurd (cc h)
  with_setting-some key (some s) none values h = absurd (cc h)
  with_setting-some key (some s) (some later) values h = (s, (later, (refl, (refl, ground arith))))

  coerce_all-Aligned :
      (section : Text) (fields : List (Field F)) (raw : List (Text × Toml F)) (values : Section F)
      → coerce_all section fields raw ≡ some values
      → Aligned section fields raw values
  unfolding coerce_all Aligned
  coerce_all-Aligned section fields [] values h =
      let e : [] ≡ values = ground arith in subst (Aligned section fields []) e tt
  coerce_all-Aligned section fields ((key, v) ∷ raw) values h =
      let (s, (later, (here, (rest, e)))) =
        with_setting-some key (coerce_known section key (find_field key fields) v)
          (coerce_all section fields raw) values h in
      subst (Aligned section fields ((key, v) ∷ raw)) (sym e)
        (refl, (here, coerce_all-Aligned section fields raw later rest))

  -- what a key has in the file and in the values
  Found : Text → List (Field F) → Text → Option (Toml F) → Option (Setting F) → Type 0
  Found section fields key none none = Unit {0}
  Found section fields key (some v) (some s) =
      coerce_known section key (find_field key fields) v ≡ some s
  Found section fields key _ _ = ⊥

  Aligned-lookup :
      (section : Text) (fields : List (Field F)) (key : Text) (raw : List (Text × Toml F))
      (values : Section F)
      → Aligned section fields raw values
      → Found section fields key (lookup key raw) (lookup key values)
  unfolding Aligned Found
  Aligned-lookup section fields key [] [] a = tt
  Aligned-lookup section fields key [] (e ∷ values) a = absurd a
  Aligned-lookup section fields key (e ∷ raw) [] a = absurd a
  Aligned-lookup section fields key ((name, v) ∷ raw) ((name', s) ∷ values) (same, (here, a)) =
      elim (Bool-cases (text_eq key name)) [
        | inl h ↦
            let e = text_eq_sound key name h in
            rw (sym same, h)
              (subst (λ k. coerce_known section k (find_field k fields) v ≡ some s) (sym e) here)
        | inr h ↦ rw (sym same, h) (Aligned-lookup section fields key raw values a)
      ]

  -- a setting has its default if the table lacks its key; else the table's value, of its kind and
  -- within its range
  abbrev pub IsSettled : Text → List (Text × Toml F) → Field F → Setting F → Type 0
  IsSettled section raw field s =
      ((lookup field.key raw ≡ none) × (s ≡ field.default))
      ⊎ ((v : Toml F) × ((lookup field.key raw ≡ some v)
            × (Given field.expected v s × Within section field.key s)))

  abbrev pub AreSettled : Text → List (Text × Toml F) → List (Field F) → Section F → Type 0
  AreSettled section raw [] [] = Unit {0}
  AreSettled section raw (field ∷ fields) ((key, s) ∷ settings) =
      (key ≡ field.key) × (IsSettled section raw field s × AreSettled section raw fields settings)
  AreSettled section raw _ _ = ⊥

  abbrev pub Stands : List (Field F) → Field F → Type 0
  Stands fields field = find_field field.key fields ≡ some field

  IsSettled-Found :
      (section : Text) (fields : List (Field F)) (field : Field F) (raw : List (Text × Toml F))
      → Stands fields field
      → (v : Option (Toml F)) (s : Option (Setting F)) → lookup field.key raw ≡ v
      → Found section fields field.key v s
      → IsSettled section raw field (or_default field s)
  unfolding Found
  IsSettled-Found section fields field raw stands none none e h = inl (e, refl)
  IsSettled-Found section fields field raw stands (some v) none e h = absurd h
  IsSettled-Found section fields field raw stands none (some s) e h = absurd h
  IsSettled-Found section fields field raw stands (some v) (some s) e h =
      let c = subst (λ o. coerce_known section field.key o v ≡ some s) stands h in
      inr (v, (e, coerce-Given section field.key field.expected v s c))

  filled-AreSettled :
      (section : Text) (fields : List (Field F)) (raw : List (Text × Toml F)) (values : Section F)
      → Aligned section fields raw values
      → (later : List (Field F)) → All (Stands fields) later
      → AreSettled section raw later (filled later values)
  filled-AreSettled section fields raw values a [] all = tt
  filled-AreSettled section fields raw values a (field ∷ later) (stands, all) = (
    refl,
    (
      IsSettled-Found section fields field raw stands (lookup field.key raw)
          (lookup field.key values) refl (Aligned-lookup section fields field.key raw values a),
      filled-AreSettled section fields raw values a later all,
    ),
  )

  -- the keys of a table are those of fields
  abbrev pub AreKnown : List (Field F) → List (Text × Toml F) → Type 0
  AreKnown fields raw =
      All (λ entry. (field : Field F) × (find_field entry.0 fields ≡ some field)) raw

  Aligned-known :
      (section : Text) (fields : List (Field F)) (raw : List (Text × Toml F)) (values : Section F)
      → Aligned section fields raw values
      → AreKnown fields raw
  unfolding Aligned
  Aligned-known section fields [] values a = tt
  Aligned-known section fields (e ∷ raw) [] a = absurd a
  Aligned-known section fields ((key, v) ∷ raw) ((key', s) ∷ values) (same, (here, a)) = (
    elim (Option-cases (find_field key fields)) [
      | inl e ↦ absurd (cc (rw e at here))
      | inr found ↦ found
    ],
    Aligned-known section fields raw values a,
  )

  -- a section as the file has it, or with its defaults
  abbrev pub IsSection : Text → List (Field F) → Option (TopEntry F) → Section F → Type 0
  IsSection name fields none section = AreSettled name [] fields section
  IsSection name fields (some (table raw)) section =
      AreKnown fields raw × AreSettled name raw fields section
  IsSection name fields (some loose) section = ⊥

  filled_with-some :
      (fields : List (Field F)) (o : Option (Section F)) (section : Section F)
      → filled_with fields o ≡ some section
      → (values : Section F) × ((o ≡ some values) × (filled fields values ≡ section))
  filled_with-some fields none section h = absurd (cc h)
  filled_with-some fields (some values) section h = (values, (refl, ground arith))

  pub build_section-IsSection :
      (name : Text) (fields : List (Field F)) (entry : Option (TopEntry F)) (section : Section F)
      → All (Stands fields) fields
      → build_section name fields entry ≡ some section
      → IsSection name fields entry section
  unfolding build_section Aligned
  build_section-IsSection name fields none section all h =
      let e : filled fields [] ≡ section = ground arith in
      subst (AreSettled name [] fields) e (filled-AreSettled name fields [] [] tt fields all)
  build_section-IsSection name fields (some loose) section all h = absurd (cc h)
  build_section-IsSection name fields (some (table raw)) section all h =
      let (values, (made, e)) = filled_with-some fields (coerce_all name fields raw) section h in
      let a = coerce_all-Aligned name fields raw values made in
      (
        Aligned-known name fields raw values a,
        subst (AreSettled name raw fields) e
            (filled-AreSettled name fields raw values a fields all),
      )
