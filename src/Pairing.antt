-- ===== src/Pairing.antt =====
-- The commands that src/uniden_r8/pairing.py sends to bluetoothctl: the addresses, the check of a
-- command, `_Session.send` and the choice of the bonded detector. A refusal is a constructor; its
-- text is left out. The patterns are matched on texts without line breaks, as they are there.
pub mod Commands
use unidenr8_bluetooth.Prelude.{
  ℕ, zero, suc, Bool, true, false, not, ◌&&◌, ◌||◌, Option, none, some, List, [], ◌∷◌, ◌++◌, map,
  ◌==◌, leb, if◌then◌else◌, is_some, any_of, keep, has,
}
use unidenr8_bluetooth.Runtime.Text.{Text, codes, mem_text, contains}
use unidenr8_bluetooth.Runtime.Unicode.{Unicode, strip}

-- `ALLOWED_VERBS` and `FORBIDDEN_VERBS`
abbrev pub allowed_verbs : List Text
allowed_verbs =
    codes "agent"
    ∷ codes "default-agent"
    ∷ codes "scan"
    ∷ codes "pair"
    ∷ codes "info"
    ∷ codes "devices"
    ∷ codes "untrust"
    ∷ codes "disconnect"
    ∷ codes "exit"
    ∷ codes "yes"
    ∷ []

abbrev pub forbidden_verbs : List Text
forbidden_verbs =
    codes "remove"
    ∷ codes "trust"
    ∷ codes "power"
    ∷ codes "discoverable"
    ∷ codes "pairable"
    ∷ codes "connect"
    ∷ codes "menu"
    ∷ codes "advertise"
    ∷ codes "system-alias"
    ∷ codes "reset-alias"
    ∷ []

-- the characters that chain commands
abbrev pub chaining : List ℕ
chaining = 10 ∷ 13 ∷ b';' ∷ b'&' ∷ b'|' ∷ b'`' ∷ b'$' ∷ 0 ∷ []

pub data Refusal : Type 0 where
  empty_command chained forbidden_verb unlisted_verb protected_device : Refusal

pub data Answer : Type 0 where
  allowed : Text → Answer
  refused : Refusal → Answer

-- `[0-9A-F]`
abbrev hex_upper : ℕ → Bool
hex_upper c = leb b'0' c && leb c b'9' || leb b'A' c && leb c b'F'

-- `_ADDRESS_RE`: so many octets before the last one
octets : ℕ → Text → Bool
octets zero (a ∷ b ∷ []) = hex_upper a && hex_upper b
octets (suc n) (a ∷ b ∷ c ∷ s) = hex_upper a && hex_upper b && c == b':' && octets n s
octets _ _ = false

-- `replace("-", ":")`
abbrev colons : Text → Text
colons s = map (λ c. if c == b'-' then b':' else c) s

module _ ⦃u : Unicode⦄ where
  unfoldable pub normalize_address : Text → Option Text
  unfolding octets
  normalize_address address =
      let canonical = colons (u.upper (strip address)) in
      if octets 5 canonical then some canonical else none

  -- `is_address`
  abbrev pub is_address : Text → Bool
  is_address text = is_some (normalize_address text)

  -- a run of characters that is not empty is a word
  close_word : Text → List Text → List Text
  close_word [] words = words
  close_word (c ∷ run) words = (c ∷ run) ∷ words

  -- the run at the front of a text, and the words behind it
  first_run : Text → Text × List Text
  unfolding close_word
  first_run [] = ([], [])
  first_run (c ∷ s) =
      let (run, words) = first_run s in
      if u.is_space c then ([], close_word run words) else (c ∷ run, words)

  -- `command.split()`
  unfoldable pub words_of : Text → List Text
  unfolding first_run close_word
  words_of s = let (run, words) = first_run s in close_word run words

  -- an argument that names a protected device
  abbrev pub names_protected : List Text → Text → Bool
  names_protected protected argument = elim (normalize_address argument) [
    | none ↦ false
    | some canonical ↦ mem_text canonical protected
  ]

  -- the checks of the words; a command of which something is left by `strip` has one
  unfoldable pub check_words : List Text → Text → List Text → Answer
  check_words protected command [] = refused empty_command
  check_words protected command (word ∷ arguments) =
      let verb = u.lower word in
      if mem_text verb forbidden_verbs
      then refused forbidden_verb
      else if not (mem_text verb allowed_verbs)
      then refused unlisted_verb
      else if any_of (names_protected protected) arguments
      then refused protected_device
      else allowed command

  abbrev pub is_blank : Text → Bool
  is_blank [] = true
  is_blank (c ∷ s) = false

  unfoldable pub assert_command_allowed : Text → List Text → Answer
  assert_command_allowed command protected =
      if is_blank (strip command)
      then refused empty_command
      else if any_of (λ c. contains c command) chaining
      then refused chained
      else check_words protected command (words_of command)

  -- `_Session.send`, on the lines written to the child; nothing is written where it raises
  unfoldable pub send : List Text → Text → List Text → Option (List Text)
  send protected command written = elim (assert_command_allowed command protected) [
    | allowed c ↦ some (written ++ ((command ++ (10 ∷ [])) ∷ []))
    | refused r ↦ none
  ]

-- `DETECTOR_NAME_RE`, ignoring case
after_digit : Text → Bool
after_digit [] = true
after_digit (c ∷ s) = has (b'@' ∷ b'-' ∷ b'_' ∷ []) c

after_model : Text → Bool
unfolding after_digit
after_model [] = true
after_model (c ∷ s) = if c == b'W' || c == b'w' then after_digit s else after_digit (c ∷ s)

unfoldable pub is_detector_name : Text → Bool
unfolding after_model after_digit
is_detector_name (r ∷ digit ∷ s) =
    (r == b'R' || r == b'r') && has (b'4' ∷ b'8' ∷ b'9' ∷ []) digit && after_model s
is_detector_name _ = false

-- the only one of some detectors; `none` is the `LookupError`
abbrev only : List (Text × Text) → Option Text
only ((address, name) ∷ []) = some address
only _ = none

-- `bonded_detector_address`, of the bonded devices
unfoldable pub bonded_detector_address : List (Text × Text) → Option Text
bonded_detector_address devices = only (keep (λ d. is_detector_name d.1) devices)
