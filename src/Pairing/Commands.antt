-- ===== src/Pairing/Commands.antt =====
-- What src/uniden_r8/pairing.py writes to bluetoothctl.
use unidenr8_bluetooth.Prelude.{
  ◌≡◌, ◌⊎◌, refl, true, false, Option, none, some, List, [], ◌∷◌, ◌++◌, any_of, All, All-append,
  Bool-cases, Option-cases, inl, inr, subst, arith,
}
use unidenr8_bluetooth.Runtime.Text.{Text, mem_text, contains}
use unidenr8_bluetooth.Runtime.Unicode.{Unicode, strip}
use unidenr8_bluetooth.Pairing.{
  allowed_verbs, forbidden_verbs, chaining, Answer, allowed, refused, normalize_address,
  names_protected, words_of, check_words, is_blank, assert_command_allowed, send,
}

module _ ⦃u : Unicode⦄ where
  -- an argument that is no address, or the address of a device that is not protected
  abbrev pub IsOpen : List Text → Text → Type 0
  IsOpen protected argument =
      (normalize_address argument ≡ none)
      ⊎ ((address : Text) × (normalize_address argument ≡ some address)
          × (mem_text address protected ≡ false))

  -- one command, with a verb that is allowed, on devices that are not protected
  pub record IsSafe (protected : List Text) (command : Text) : Type 0 where
    pub single : any_of (λ c. contains c command) chaining ≡ false
    pub verb : Text
    pub arguments : List Text
    pub worded : words_of command ≡ verb ∷ arguments
    pub listed : mem_text (u.lower verb) allowed_verbs ≡ true
    pub not_forbidden : mem_text (u.lower verb) forbidden_verbs ≡ false
    pub spared : All (IsOpen protected) arguments

  IsOpen-arguments :
      (protected arguments : List Text)
      → any_of (names_protected protected) arguments ≡ false
      → All (IsOpen protected) arguments
  IsOpen-arguments protected [] h = tt
  IsOpen-arguments protected (a ∷ arguments) h =
      let later = IsOpen-arguments protected arguments (ground arith) in
      elim (Option-cases (normalize_address a)) [
        | inl other ↦ (inl other, later)
        | inr (address, e) ↦
            let here : names_protected protected a ≡ false = ground arith in
            let spared : mem_text address protected ≡ false = rw (names_protected, e) at here in
            (inr (address, e, spared), later)
      ]

  check_words-IsSafe :
      (command c : Text) (protected words : List Text)
      → any_of (λ x. contains x command) chaining ≡ false
      → words_of command ≡ words
      → check_words protected command words ≡ allowed c
      → (c ≡ command) × IsSafe protected command
  unfolding check_words
  check_words-IsSafe command c protected [] single e h = absurd (cc h)
  check_words-IsSafe command c protected (word ∷ arguments) single e h =
      let verb = u.lower word in
      elim (Bool-cases (mem_text verb forbidden_verbs)) [
        | inl bad ↦ absurd (cc (rw bad at h))
        | inr fine ↦ elim (Bool-cases (mem_text verb allowed_verbs)) [
          | inr unlisted ↦ absurd (cc (rw (fine, unlisted) at h))
          | inl listed ↦ elim (Bool-cases (any_of (names_protected protected) arguments)) [
            | inl named ↦ absurd (cc (rw (fine, listed, named) at h))
            | inr spared ↦
                let same : allowed command ≡ allowed c = rw (fine, listed, spared) at h in
                (
                  cc same,
                  record {
                    single = single;
                    verb = word;
                    arguments = arguments;
                    worded = e;
                    listed = listed;
                    not_forbidden = fine;
                    spared = IsOpen-arguments protected arguments spared;
                  },
                )
          ]
        ]
      ]

  assert_command_allowed-IsSafe :
      (command c : Text) (protected : List Text)
      → assert_command_allowed command protected ≡ allowed c
      → (c ≡ command) × IsSafe protected command
  unfolding assert_command_allowed
  assert_command_allowed-IsSafe command c protected h =
      elim (Bool-cases (is_blank (strip command))) [
        | inl blank ↦ absurd (cc (rw blank at h))
        | inr some_text ↦ elim (Bool-cases (any_of (λ x. contains x command) chaining)) [
          | inl bad ↦ absurd (cc (rw (some_text, bad) at h))
          | inr single ↦
              check_words-IsSafe command c protected (words_of command) single refl
                (rw (some_text, single) at h)
        ]
      ]

  -- the commands of a session in their order, up to the first that is refused
  unfoldable pub send_all : List Text → List Text → List Text → List Text
  send_all protected [] written = written
  send_all protected (command ∷ commands) written = elim (send protected command written) [
    | none ↦ written
    | some more ↦ send_all protected commands more
  ]

  -- a line that was written is a safe command and the end of the line
  abbrev pub Written : List Text → Text → Type 0
  Written protected line =
      (command : Text) × (line ≡ command ++ (10 ∷ [])) × IsSafe protected command

  send-Written :
      (protected : List Text) (command : Text) (written more : List Text)
      → send protected command written ≡ some more
      → All (Written protected) written
      → All (Written protected) more
  unfolding send
  send-Written protected command written more h all =
      go (assert_command_allowed command protected) refl h
    where
      go :
          (a : Answer)
          → assert_command_allowed command protected ≡ a
          → (elim a as (λ _. Option (List Text)) [
            | allowed c ↦ some (written ++ ((command ++ (10 ∷ [])) ∷ []))
            | refused r ↦ none
          ])
            ≡ some more
          → All (Written protected) more
      go (refused r) e k = absurd (cc k)
      go (allowed c) e k =
          let (same, safe) = assert_command_allowed-IsSafe command c protected e in
          let last : written ++ ((command ++ (10 ∷ [])) ∷ []) ≡ more = cc k in
          subst (λ lines. All (Written protected) lines) last
            (All-append (Written protected) written ((command ++ (10 ∷ [])) ∷ []) all
              ((command, refl, safe), tt))

  -- Whatever commands a pairing session is asked to send, each line that it writes is one command
  -- and the end of the line: without a character that chains commands, with a verb of the allowlist
  -- that is not on the denylist, and no argument of it is, in any spelling, the address of a
  -- protected device.
  pub send_all-Written :
      (protected commands written : List Text)
      → All (Written protected) written
      → All (Written protected) (send_all protected commands written)
  unfolding send_all
  send_all-Written protected [] written all = all
  send_all-Written protected (command ∷ commands) written all =
      go (send protected command written) refl
        (λ more h. send_all-Written protected commands more h)
    where
      go :
          (o : Option (List Text))
          → send protected command written ≡ o
          → ((more : List Text)
              → All (Written protected) more
              → All (Written protected) (send_all protected commands more))
          → All (Written protected) (elim o as (λ _. List Text) [
            | none ↦ written
            | some more ↦ send_all protected commands more
          ])
      go none e later = all
      go (some more) e later = later more (send-Written protected command written more e all)
