-- ===== src/Pairing/Send.antt =====
-- firmware/m5stack-cardputer-adv/src/pairing.cpp: the messages that the firmware sends, and
-- `sendDocument`, which puts the token in and writes one line.
use cardputer_codex_deck.Base.{
  ℕ, ◌+◌, Bool, true, false, ◌&&◌, ◌||◌, not, List, [], ◌∷◌, ◌++◌, Text, text, text_eq, is_empty,
  is_digit, ◌==◌, ltb, if◌then◌else◌, length,
}
use cardputer_codex_deck.Models.{LinkState, max_agent_sessions}
use cardputer_codex_deck.Pairing.State.{
  null, str, num, arr, obj, Members, end, member, Document, Client, PairingManager, Env,
  is_connected,
}

-- `document[key].is<String>()`.
unfoldable pub has_text : Text → Members → Bool
has_text key end = false
has_text key (member k v rest) =
    if text_eq k key then elim v [ str s ↦ true | _ ↦ false ] else has_text key rest

-- `document[key] = text`: the member is given anew, or goes to the end.
unfoldable pub set_text : Text → Text → Members → Members
set_text key s end = member key (str s) end
set_text key s (member k v rest) =
    if text_eq k key then member k (str s) rest else member k v (set_text key s rest)

-- `char line[512]`.
abbrev pub line_size : ℕ
line_size = 512

-- The document with the token that an authenticated link adds.
unfoldable pub with_token : PairingManager → Document → Document
with_token m document =
    if is_connected m.state
      && length m.target_token == 64
      && not (has_text (text "token") document.members)
    then record document { members = set_text (text "token") m.target_token document.members }
    else document

-- `client_.write(line, written + 1) == written + 1`. A short write leaves a part of the line on the
-- socket; `sent` has the documents that were written whole.
unfoldable pub write_line : Env → Document → Client → Client × Bool
write_line env document c =
    let line = env.serialize document.members ++ b'\n' ∷ [] in
    if env.write c.writes line == length line
    then (record c { sent = document ∷ c.sent; writes = c.writes + 1 }, true)
    else (record c { writes = c.writes + 1 }, false)

unfoldable pub send_document : Env → Document → PairingManager → PairingManager × Bool
unfolding write_line
send_document env document m =
    let document' = with_token m document in
    if not m.client.connected
      || env.overflowed document'
      || ltb line_size (length (env.serialize document'.members) + 1)
    then (m, false)
    else let (client, ok) = write_line env document' m.client in (record m { client = client }, ok)

abbrev pub message_type : Text → Members → Members
message_type t rest = member (text "t") (str t) rest

abbrev pub ping_document : Document
ping_document = record { capacity = 256; members = message_type (text "ping") end }

abbrev pub pong_document : Document
pong_document = record { capacity = 256; members = message_type (text "pong") end }

abbrev pub agent_list_request : Document
agent_list_request = record {
  capacity = 256;
  members =
      message_type (text "agent_list_req") (member (text "limit") (num max_agent_sessions) end);
}

-- generated_version.h.
abbrev pub device_capabilities : List Text
device_capabilities =
    text "control.keys.v1"
    ∷ text "audio.pcm16-16k.v1"
    ∷ text "agents.snapshot.v1"
    ∷ text "agents.phase.v1"
    ∷ text "quota.v1"
    ∷ []

unfoldable pub hello_document : Text → Text → Document
hello_document device_id token = record {
  capacity = 768;
  members = message_type (text "hello") (
      member (text "dev_id") (str device_id) (
        member (text "token") (if is_empty token then null else str token) (
          member (text "device")
            (obj (
              member (text "model") (str (text "cardputer-adv")) (
                member (text "firmware") (str (text "0.3.0")) (member (text "build") (num 9) end))))
            (member (text "protocol")
              (obj (member (text "major") (num 2) (member (text "minor") (num 1) end)))
              (member (text "capabilities") (arr device_capabilities) end)))));
}

unfoldable pub all_digits : Text → Bool
all_digits [] = true
all_digits (c ∷ s) = is_digit c && all_digits s

abbrev pub pair_document : Text → Document
pair_document code = record {
  capacity = 128;
  members = message_type (text "pair") (member (text "code") (str code) end);
}

unfoldable pub submit_pair_code : Env → Text → PairingManager → PairingManager × Bool
submit_pair_code env six_digits m =
    if not m.client.connected || not (length six_digits == 6) || not (all_digits six_digits)
    then (m, false)
    else send_document env (pair_document six_digits)
        (record m { state = LinkState.authenticating })

abbrev pub flag : Bool → Text → List Text → List Text
flag b name rest = if b then name ∷ rest else rest

unfoldable pub key_document : Text → Text → Bool → Bool → Bool → Bool → Document
key_document key action cmd shift option control = record {
  capacity = 384;
  members = message_type (text "key") (
      member (text "k") (str key) (
        member (text "a") (str action) (
          member (text "m")
            (arr (
              flag cmd (text "cmd") (
                flag shift (text "shift")
                  (flag option (text "alt") (flag control (text "ctrl") [])))))
            end)));
}

unfoldable pub send_key :
    Env → Text → Text → Bool → Bool → Bool → Bool → PairingManager → PairingManager × Bool
send_key env key action cmd shift option control m =
    if not (is_connected m.state) || not m.client.connected
    then (m, false)
    else send_document env (key_document key action cmd shift option control) m

unfoldable pub send_agent_ack : Env → Text → PairingManager → PairingManager × Bool
send_agent_ack env session_id m =
    if not (is_connected m.state) || is_empty session_id
    then (m, false)
    else send_document env
        (record {
          capacity = 320;
          members = message_type (text "agent_ack") (member (text "id") (str session_id) end);
        })
        m

unfoldable pub request_agent_list : Env → PairingManager → PairingManager
request_agent_list env m = (send_document env agent_list_request m).0
