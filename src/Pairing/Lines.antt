-- ===== src/Pairing/Lines.antt =====
-- How `readIncoming` splits the unread bytes into lines.
use mathlib.Core.List.{append_assoc, append-nil}
use cardputer_codex_deck.Base.{
  ℕ, zero, suc, ◌+◌, ◌≤◌, ◌<◌, ◌≡◌, ◌≢◌, refl, ◌∙◌, ap, true, false, [], ◌∷◌, ◌++◌, arith, ◌==◌,
  ltb, List-cases, inl, inr, length, length-append, Text,
}
use cardputer_codex_deck.Pairing.State.{PairingManager, Env}
use cardputer_codex_deck.Pairing.Snapshot.{Json}
use cardputer_codex_deck.Pairing.Receive.{handle_line, read_byte, read_loop, read_incoming}
use cardputer_codex_deck.Pairing.Frame.{read_byte-MessageFrame, handle_line-MessageFrame}

-- No byte ends a line or is skipped.
abbrev pub IsPlain : Text → Type 0
IsPlain [] = Unit {0}
IsPlain (c ∷ s) = (c ≢ b'\n') × (c ≢ b'\r') × IsPlain s

-- The manager with these bytes gathered and those unread.
abbrev pub holding : Text → Text → PairingManager → PairingManager
holding gathered unread m =
    let c = m.client in record m { incoming = gathered; client = record c { rx = unread } }

module _ (json : Json) (env : Env) where
  -- More fuel than unread bytes changes nothing.
  read_loop_fuel :
      (f g : ℕ) (m : PairingManager)
      → length m.client.rx ≤ f
      → length m.client.rx ≤ g
      → read_loop json f env m ≡ read_loop json g env m
  unfolding read_loop
  read_loop_fuel zero zero m h k = refl
  read_loop_fuel zero (suc g) m h k = elim (List-cases m.client.rx) [
    | inl empty ↦ simp (empty, read_loop)
    | inr (c, rest, e) ↦ absurd (ground arith)
  ]
  read_loop_fuel (suc f) zero m h k = elim (List-cases m.client.rx) [
    | inl empty ↦ simp (empty, read_loop)
    | inr (c, rest, e) ↦ absurd (ground arith)
  ]
  read_loop_fuel (suc f) (suc g) m h k = elim (List-cases m.client.rx) [
    | inl empty ↦ simp (empty, read_loop)
    | inr (c, rest, e) ↦
        let s = holding m.incoming rest m in
        let n = read_byte json env c s in
        let fewer : length n.client.rx ≤ length rest =
          (read_byte-MessageFrame json s env c).unread in
        let longer : length m.client.rx ≡ suc (length rest) = ap length e in
        simp (e, read_loop) (read_loop_fuel f g n (omega arith) (omega arith))
  ]

  read_byte_plain :
      (c : ℕ) (m : PairingManager)
      → c ≢ b'\n'
      → c ≢ b'\r'
      → length m.incoming < 4096
      → read_byte json env c m ≡ record m { incoming = m.incoming ++ c ∷ [] }
  unfolding read_byte
  read_byte_plain c m n r h =
      let newline : (c == b'\n') ≡ false = ground arith in
      let return : (c == b'\r') ≡ false = ground arith in
      let room : ltb (length m.incoming) 4096 ≡ true = ground arith in simp (newline, return, room)

  -- Plain bytes gather in `incoming_`, in order, while they fit.
  pub read_incoming_plain :
      (s rest gathered : Text) (m : PairingManager)
      → IsPlain s
      → length gathered + length s ≤ 4096
      → read_incoming json env (holding gathered (s ++ rest) m)
        ≡ read_incoming json env (holding (gathered ++ s) rest m)
  unfolding read_incoming read_loop
  read_incoming_plain [] rest gathered m p h = rw append-nil
  read_incoming_plain (c ∷ s) rest gathered m p h =
      rw (read_byte_plain c (holding gathered (s ++ rest) m) p.0 p.1 (omega arith)) (
        read_incoming_plain s rest (gathered ++ c ∷ []) m p.2
          (omega (arith, length-append gathered (c ∷ [])))
        ∙ ap (λ g. read_incoming json env (holding g rest m)) (append_assoc gathered (c ∷ []) s))

  read_incoming_newline :
      (rest gathered : Text) (m : PairingManager)
      → gathered ≢ []
      → read_incoming json env (holding gathered (b'\n' ∷ rest) m)
        ≡ read_incoming json env (
            let h = handle_line json env gathered (holding gathered rest m) in
            record h { incoming = [] })
  unfolding read_incoming read_loop read_byte
  read_incoming_newline rest [] m h = absurd (h refl)
  read_incoming_newline rest (c ∷ cs) m h =
      let s = holding (c ∷ cs) rest m in
      let n = handle_line json env (c ∷ cs) s in
      let fewer = (handle_line-MessageFrame json s env (c ∷ cs)).unread in
      read_loop_fuel (length rest) (length n.client.rx) (record n { incoming = [] }) fewer
        (omega arith)

  -- Bytes that begin with a non-empty line of plain bytes, at most 4096 of them, and its newline
  -- are taken in by acting once on that line, and then on what the line left unread.
  pub read_incoming-line :
      (line rest : Text) (m : PairingManager)
      → line ≢ []
      → IsPlain line
      → length line ≤ 4096
      → read_incoming json env (holding [] (line ++ b'\n' ∷ rest) m)
        ≡ read_incoming json env
            (let h = handle_line json env line (holding line rest m) in record h { incoming = [] })
  read_incoming-line line rest m some_byte plain short =
      read_incoming_plain line (b'\n' ∷ rest) [] m plain (omega arith)
      ∙ read_incoming_newline rest line m some_byte

  read_byte_overflow :
      (c : ℕ) (m : PairingManager)
      → c ≢ b'\n'
      → c ≢ b'\r'
      → length m.incoming ≡ 4096
      → read_byte json env c m ≡ record m { incoming = [] }
  unfolding read_byte
  read_byte_overflow c m n r h =
      let newline : (c == b'\n') ≡ false = ground arith in
      let return : (c == b'\r') ≡ false = ground arith in
      let full : ltb (length m.incoming) 4096 ≡ false = ground arith in simp (newline, return, full)

  read_incoming_overflow :
      (c : ℕ) (rest gathered : Text) (m : PairingManager)
      → c ≢ b'\n'
      → c ≢ b'\r'
      → length gathered ≡ 4096
      → read_incoming json env (holding gathered (c ∷ rest) m)
        ≡ read_incoming json env (holding [] rest m)
  unfolding read_incoming read_loop
  read_incoming_overflow c rest gathered m n r h =
      rw (read_byte_overflow c (holding gathered rest m) n r h) refl

  -- A line of more than 4096 bytes is not always dropped whole: when its first 4097 bytes are plain
  -- and a non-empty tail of at most 4096 plain bytes follows, that tail is acted on as a line of
  -- its own.
  pub read_incoming-overlong :
      (head tail rest : Text) (c : ℕ) (m : PairingManager)
      → IsPlain head
      → length head ≡ 4096
      → c ≢ b'\n'
      → c ≢ b'\r'
      → tail ≢ []
      → IsPlain tail
      → length tail ≤ 4096
      → read_incoming json env (holding [] (head ++ c ∷ (tail ++ b'\n' ∷ rest)) m)
        ≡ read_incoming json env
            (let h = handle_line json env tail (holding tail rest m) in record h { incoming = [] })
  read_incoming-overlong head tail rest c m plain_head long n r some_byte plain_tail short =
      read_incoming_plain head (c ∷ (tail ++ b'\n' ∷ rest)) [] m plain_head (omega arith)
      ∙ read_incoming_overflow c (tail ++ b'\n' ∷ rest) head m n r long
      ∙ read_incoming-line tail rest m some_byte plain_tail short
