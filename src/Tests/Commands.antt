-- ===== src/Tests/Commands.antt =====
-- Runs of a pairing session, with one protected device.
use unidenr8_bluetooth.Prelude.{◌≡◌, List, [], ◌∷◌, All, refl}
use unidenr8_bluetooth.Runtime.Text.{Text, codes, mem_text, contains, text_eq, strip_by}
use unidenr8_bluetooth.Runtime.Unicode.{ascii, ascii_lower, strip}
use unidenr8_bluetooth.Pairing.{
  assert_command_allowed, refused, protected_device, normalize_address, words_of, check_words,
}
use unidenr8_bluetooth.Pairing.Commands.{Written, send_all, send_all-Written}

abbrev bonds : List Text
bonds = codes "AA:BB:CC:00:11:22" ∷ []

abbrev commands : List Text
commands = codes "scan on" ∷ codes "pair E0:00:00:00:00:01" ∷ codes "info aa-bb-cc-00-11-22" ∷ []

protected_refused :
    assert_command_allowed (codes "info aa-bb-cc-00-11-22") bonds ≡ refused protected_device
unfolding assert_command_allowed normalize_address words_of check_words mem_text contains text_eq
    strip_by strip ascii ascii_lower
protected_refused = refl

send_all-Written_example : All (Written bonds) (send_all bonds commands [])
send_all-Written_example = send_all-Written bonds commands [] tt
