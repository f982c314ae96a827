-- ===== src/Pairing/Fixture.antt =====
-- The pairing manager at concrete inputs: a link to one paired Mac, over a stand-in for the JSON
-- library that knows three lines.
use cardputer_codex_deck.Base.{
  pos, ℕ, refl, Bool, true, false, Option, none, some, List, [], ◌∷◌, arith, Text, text, text_eq,
  length, map, replicate, if◌then◌else◌,
}
use cardputer_codex_deck.Models.{PairedMac, default_settings, LinkState}
use cardputer_codex_deck.Pairing.State.{
  Value, Members, null, str, num, arr, obj, end, member, PairingManager, Env, initial,
  paired_index_by_id,
}
use cardputer_codex_deck.Pairing.Snapshot.{Json}
use cardputer_codex_deck.Pairing.Invariant.{IsValid, Distinct}

abbrev pub token : Text
token = replicate 64 b'a'

abbrev pub status_document : Value
status_document = obj (
    member (text "t") (str (text "agent_status")) (
      member (text "token") (str token)
        (member (text "seq") (num 7) (member (text "items") (arr (text "one" ∷ [])) end))))

abbrev pub paired_document : Value
paired_document =
    obj (member (text "t") (str (text "paired")) (member (text "token") (str token) end))

abbrev pub pong : Value
pong = obj (member (text "t") (str (text "pong")) (member (text "token") (str token) end))

abbrev pub sample_parse : Text → Option Value
sample_parse line =
    if text_eq line (text "status")
    then some status_document
    else if text_eq line (text "paired")
    then some paired_document
    else if text_eq line (text "pong")
    then some pong
    else none

-- The first member of a key.
abbrev member? : Text → Members → Option Value
member? key end = none
member? key (member k v rest) = if text_eq k key then some v else member? key rest

abbrev pub sample_get : Value → Text → Value
sample_get (obj members) key = elim (member? key members) [ none ↦ null | some v ↦ v ]
sample_get _ key = null

abbrev pub sample_items : Value → List Value
sample_items (arr texts) = map str texts
sample_items _ = []

abbrev pub sample_null : Value → Bool
sample_null null = true
sample_null _ = false

abbrev pub sample_text : Value → Option Text
sample_text (str s) = some s
sample_text _ = none

abbrev pub sample_as_text : Value → Text
sample_as_text (str s) = s
sample_as_text _ = []

abbrev pub sample_uint : Value → Option ℕ
sample_uint (num n) = some n
sample_uint _ = none

abbrev pub sample : Json
sample = record {
  Variant = Value;
  parse = sample_parse;
  get = sample_get;
  items = sample_items;
  is_null = sample_null;
  as_text = sample_as_text;
  text? = sample_text;
  uint? = sample_uint;
  int? = λ v. elim (sample_uint v) [ none ↦ none | some n ↦ some (pos n) ];
  bool? = λ v. none;
}

abbrev pub at : ℕ → Env
at now = record {
  now = now;
  wifi_connected = true;
  mdns_begin = true;
  query_started = true;
  query_results = none;
  context_allocated = true;
  task_started = true;
  overflowed = λ d. false;
  serialize = λ members. text "{}";
  write = λ n line. length line;
}

abbrev pub home : PairedMac
home = record { id = text "home"; name = text "Home"; token = token }

-- The link to `home` is up.
abbrev pub linked : PairingManager
linked = record initial {
  settings = some (record default_settings { last_mac_id = text "home" });
  paired = home ∷ [];
  client = record { connected = true; rx = []; sent = []; writes = 0 };
  target_id = text "home";
  target_name = text "Home";
  target_token = token;
  target_ip = 16820416;
  connected_name = text "Home";
  state = LinkState.connected;
  mdns_started = true;
  connect_result_queue = true;
}

pub home-Distinct : Distinct (home ∷ [])
unfolding paired_index_by_id
home-Distinct = (refl, tt)

pub linked-IsValid : IsValid (home ∷ []) linked
linked-IsValid = record {
  paired_bound = omega arith;
  paired_distinct = home-Distinct;
  paired_saved = refl;
  discovered_bound = omega arith;
  sessions_bound = omega arith;
  incoming_bound = omega arith;
  delay_min = omega arith;
  delay_max = omega arith;
  pongs_bound = omega arith;
  pongs_live = λ a b. omega arith;
  worker = tt;
  queue_made = λ h. refl;
}
