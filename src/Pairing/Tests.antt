-- ===== src/Pairing/Tests.antt =====
-- The theorems on the pairing manager at concrete inputs.
use cardputer_codex_deck.Base.{
  ℕ, zero, suc, ◌+◌, ◌*◌, ◌^◌, ◌≤◌, ◌<◌, ◌≡◌, refl, ◌∙◌, true, false, ◌&&◌, some, List, [], ◌∷◌,
  ◌++◌, ap, arith, Text, text, text_eq, ◌==◌, leb, length, map, take, replicate, min, to_lower, u32,
  ◌⊎◌,
}
use cardputer_codex_deck.Models.{default_settings, LinkState, reconnect_min_ms, reconnect_max_ms}
use cardputer_codex_deck.Pairing.State.{str, PairingManager, initial, deadline_reached}
use cardputer_codex_deck.Pairing.Token.{set_audio_ready}
use cardputer_codex_deck.Pairing.Send.{send_document, with_token, ping_document}
use cardputer_codex_deck.Pairing.Link.{schedule_reconnect, disconnect, token_of}
use cardputer_codex_deck.Pairing.Snapshot.{parse_agent, parse_agent_snapshot}
use cardputer_codex_deck.Pairing.Receive.{handle_line, read_incoming, on_paired, on_hello_ok}
use cardputer_codex_deck.Pairing.Manager.{begin, tick}
use cardputer_codex_deck.Pairing.Events.{Event, ticks, worker_ends, asks_discovery, run}
use cardputer_codex_deck.Pairing.Frame.{
  MessageFrame, read_incoming-MessageFrame, read_incoming-empty,
}
use cardputer_codex_deck.Pairing.Backoff.{fail_each, backoff_doubles, deadline_exact}
use cardputer_codex_deck.Pairing.Decode.{
  encode, all_hex, IsByte, set_audio_ready-ready, set_audio_ready-token,
}
use cardputer_codex_deck.Pairing.Sending.{Sent, send_document-Sent}
use cardputer_codex_deck.Pairing.Lines.{
  IsPlain, holding, read_incoming-line, read_incoming-overlong,
}
use cardputer_codex_deck.Pairing.Authentication.{FromLink, handle_line-FromLink}
use cardputer_codex_deck.Pairing.Manual.{ManualDown, run-disconnect-ManualDown}
use cardputer_codex_deck.Pairing.SnapshotLaws.{
  WellFormed, parse_agent_snapshot-WellFormed, parse_agent_snapshot-seq,
}
use cardputer_codex_deck.Pairing.Session.{Up, Refused, has_room, on_hello_ok-Up, on_paired-Up}
use cardputer_codex_deck.Pairing.Silence.{Gone, silent, silent-Gone, tick-stale_audio}
use cardputer_codex_deck.Pairing.Invariant.{IsValid}
use cardputer_codex_deck.Pairing.Invariant.Manager.{run-begin-IsValid}
use cardputer_codex_deck.Pairing.Fixture.{
  token, status_document, paired_document, sample, at, home, linked, home-Distinct, linked-IsValid,
}

abbrev history : List Event
history = ticks (at 1000) ∷ asks_discovery (at 1100) ∷ ticks (at 1200) ∷ worker_ends true ∷ []

run-begin-IsValid_example :
    IsValid
      (home ∷ [])
      (run sample (begin (some default_settings) (home ∷ []) (text "AA:BB") true initial) history)
run-begin-IsValid_example =
    run-begin-IsValid sample (some default_settings) (home ∷ []) (text "AA:BB") true history
      (omega arith) home-Distinct

run-disconnect-ManualDown_example : ManualDown (run sample (disconnect true linked) history)
run-disconnect-ManualDown_example =
    run-disconnect-ManualDown sample linked history linked-IsValid refl

handle_line-FromLink_example :
    FromLink sample linked (text "status") (handle_line sample (at 1000) (text "status") linked)
handle_line-FromLink_example = handle_line-FromLink sample (at 1000) (text "status") linked refl

abbrev dropped : PairingManager
dropped =
    let c = linked.client in
    record linked { client = record c { connected = false }; discovery_requested = true }

tick-stale_audio_example :
    let n = tick sample (at 1000) dropped in
    (n.state ≡ LinkState.discovering)
    × (n.audio ≡ dropped.audio)
    × (n.next_connect_ms ≡ dropped.next_connect_ms)
tick-stale_audio_example =
    tick-stale_audio sample (at 1000) dropped refl refl refl refl refl refl refl refl

-- Two answers are missed already.
abbrev tired : PairingManager
tired = record linked { missed_pongs = 2 }

silent-Gone_example : Gone (silent (at 20000 ∷ []) tired)
silent-Gone_example =
    silent-Gone (at 20000 ∷ []) tired (omega arith, tt) refl (omega arith) (omega arith)

on_hello_ok-Up_example :
    Up (text "home") token (on_hello_ok sample (at 1000) paired_document linked)
on_hello_ok-Up_example = on_hello_ok-Up sample (at 1000) paired_document linked

on_paired-Up_example :
    let n = on_paired sample (at 1000) paired_document linked in
    (64 ≤ length token
      → has_room linked ≡ true
      → Up (text "home") token n × (token_of n (text "home") ≡ token))
    × (length token < 64 → Refused linked n)
    × (has_room linked ≡ false → Refused linked n)
unfolding text_eq
on_paired-Up_example = on_paired-Up sample (at 1000) paired_document linked

read_incoming-line_example :
    read_incoming sample (at 1000) (holding [] (text "status" ++ b'\n' ∷ text "po") linked)
    ≡ read_incoming sample (at 1000) (
        let h =
          handle_line sample
            (at 1000)
            (text "status")
            (holding (text "status") (text "po") linked) in
        record h { incoming = [] })
read_incoming-line_example =
    read_incoming-line sample (at 1000) (text "status") (text "po") linked
      (λ h. absurd (ground arith)) (ground arith) (omega arith)

IsPlain-replicate : (n : ℕ) → IsPlain (replicate n b'x')
IsPlain-replicate zero = tt
IsPlain-replicate (suc n) =
    (λ h. absurd (omega (arith, h)), λ h. absurd (omega (arith, h)), IsPlain-replicate n)

length-replicate : (n : ℕ) → length (replicate {A = ℕ} n b'x') ≡ n
length-replicate zero = refl
length-replicate (suc n) = ap suc (length-replicate n)

-- A line of 4096 bytes too many, and what the device takes for a line of its own.
abbrev padding : Text
padding = replicate 4096 b'x'

read_incoming-overlong_example :
    read_incoming sample
      (at 1000)
      (holding [] (padding ++ b'x' ∷ (text "paired" ++ b'\n' ∷ [])) linked)
    ≡ read_incoming sample (at 1000) (
        let h = handle_line sample (at 1000) (text "paired") (holding (text "paired") [] linked) in
        record h { incoming = [] })
read_incoming-overlong_example =
    read_incoming-overlong sample (at 1000) padding (text "paired") [] b'x' linked
      (IsPlain-replicate 4096) (length-replicate 4096) (λ h. absurd (ground arith))
      (λ h. absurd (ground arith)) (λ h. absurd (ground arith)) (ground arith) (omega arith)

abbrev arrived : PairingManager
arrived = holding [] (text "pong" ++ b'\n' ∷ []) linked

read_incoming-MessageFrame_example : MessageFrame arrived (read_incoming sample (at 1000) arrived)
read_incoming-MessageFrame_example = read_incoming-MessageFrame sample (at 1000) arrived

read_incoming-empty_example : length (read_incoming sample (at 1000) arrived).client.rx ≡ 0
read_incoming-empty_example = read_incoming-empty sample (at 1000) arrived

backoff_doubles_example :
    (fail_each (at 1 ∷ at 2 ∷ at 3 ∷ []) linked).reconnect_delay_ms
    ≡ min (reconnect_min_ms * 2 ^ 3) reconnect_max_ms
backoff_doubles_example = backoff_doubles (at 1 ∷ at 2 ∷ at 3 ∷ []) linked refl

deadline_exact_example :
    deadline_reached
      (u32 (4294967000 + 999))
      (schedule_reconnect (at 4294967000) linked).next_connect_ms
    ≡ leb linked.reconnect_delay_ms 999
deadline_exact_example =
    deadline_exact (at 4294967000) linked 999 (omega arith) (omega arith) (omega arith)

set_audio_ready-ready_example :
    (set_audio_ready true linked).audio.ready ≡ (length token == 64 && all_hex token)
set_audio_ready-ready_example = set_audio_ready-ready linked

token_is_hex : (length token == 64 && all_hex token) ≡ true
token_is_hex = refl

set_audio_ready-token_example :
    let a = (set_audio_ready true linked).audio in
    (a.ip ≡ 16820416)
    × (encode a.token ≡ map to_lower token)
    × IsByte a.token
    × (length a.token ≡ 32)
set_audio_ready-token_example =
    set_audio_ready-token linked (set_audio_ready-ready linked ∙ token_is_hex)

send_document-Sent_example :
    let r = send_document (at 1000) ping_document linked in
    (r.1 ≡ true → Sent (at 1000) linked r.0 (with_token linked ping_document))
    × (r.1 ≡ false → r.0.client.sent ≡ linked.client.sent)
    × (let n = r.0 in record n { client = linked.client } ≡ linked)
send_document-Sent_example = send_document-Sent (at 1000) ping_document linked

linked-WellFormed : WellFormed linked.agents
linked-WellFormed = record {
  few = omega arith;
  phased = tt;
  weekly = tt;
  five_hour = tt;
  no_windows = λ h. (refl, refl);
}

parse_agent_snapshot-WellFormed_example :
    WellFormed (parse_agent_snapshot sample status_document linked.agents)
parse_agent_snapshot-WellFormed_example =
    parse_agent_snapshot-WellFormed sample status_document linked.agents linked-WellFormed

parse_agent_snapshot-seq_example :
    let n = parse_agent_snapshot sample status_document linked.agents in
    (linked.agents.online ≡ true → linked.agents.seq ≤ n.seq)
    × (linked.agents.online ≡ true → 7 < linked.agents.seq → n ≡ linked.agents)
    × (linked.agents.online ≡ false ⊎ (linked.agents.seq ≤ 7)
        → (n.sessions ≡ map (parse_agent sample) (take 8 (str (text "one") ∷ [])))
          × (n.seq ≡ 7)
          × (n.online ≡ true))
unfolding text_eq
parse_agent_snapshot-seq_example = parse_agent_snapshot-seq sample status_document linked.agents
