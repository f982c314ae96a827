-- ===== src/Pairing/Sending.antt =====
-- What reaches the wire (Pairing/Send).
use cardputer_codex_deck.Base.{
  ◌+◌, ◌≤◌, ◌≡◌, ◌||◌, refl, true, false, not, ◌∷◌, arith, ltb, Bool-cases, inl, inr, length,
}
use cardputer_codex_deck.Pairing.State.{Document, PairingManager, Env}
use cardputer_codex_deck.Pairing.Send.{line_size, with_token, write_line, send_document}

-- What a successful `sendDocument` did to the socket.
pub record Sent (env : Env) (m n : PairingManager) (document : Document) : Type 0 where
  pub open_socket : m.client.connected ≡ true
  pub fits : env.overflowed document ≡ false
  pub line_fits : length (env.serialize document.members) + 1 ≤ line_size
  pub logged : n.client.sent ≡ document ∷ m.client.sent

-- A call of `sendDocument` that returns true wrote exactly one document, the one with the token,
-- over an open socket, in a line that fits its 512 bytes; a call that returns false wrote none
-- whole. Either way nothing but the socket changes.
pub send_document-Sent :
    (env : Env) (document : Document) (m : PairingManager)
    → let r = send_document env document m in
      (r.1 ≡ true → Sent env m r.0 (with_token m document))
      × (r.1 ≡ false → r.0.client.sent ≡ m.client.sent)
      × (let n = r.0 in record n { client = m.client } ≡ m)
unfolding send_document write_line
send_document-Sent env document m =
    let d = with_token m document in
    elim (Bool-cases (
      not m.client.connected
      || env.overflowed d
      || ltb line_size (length (env.serialize d.members) + 1))) [
        | inl refused ↦ rw refused ((λ h. absurd (cc)), λ h. refl, refl)
        | inr fine ↦ rw fine (λ ok. ground arith, λ bad. ground arith, refl)
      ]
