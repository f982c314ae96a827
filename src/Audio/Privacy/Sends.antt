-- ===== src/Audio/Privacy/Sends.antt =====
-- A step of the sender task on a muted device (Audio/Sender).
use cardputer_codex_deck.Base.{
  ◌≡◌, refl, ap, Bool, true, false, [], Text, arith, inl, inr, ◌∙◌, List-cases, none,
}
use cardputer_codex_deck.Audio.State.{
  AudioTransmitter, AudioFrame, Sender, SenderPhase, sender_head, receiving, has_next, sending,
  SenderEnv, request_pipeline_restart,
}
use cardputer_codex_deck.Audio.Sender.{
  watch_acks, count_send, open_endpoint, start_sender, receive_frame, check_endpoint, finish_send,
  sender_at, send_frame,
}
use cardputer_codex_deck.Audio.Privacy.Counts.{is_sending, Moves, NoneAdded}

-- A step of the sender task on a muted device, from a phase.
pub record SenderHushed (p : SenderPhase) (t : AudioTransmitter) (r : Sender × AudioTransmitter)
    : Type 0 where
  pub muted : r.1.muted ≡ true
  pub captured : r.1.captured ≡ t.captured
  pub sent : Moves (is_sending p) t.sent (is_sending r.0.phase) r.1.sent
  pub ring : t.queue ≡ [] → r.1.queue ≡ []

module _ (env : SenderEnv) (s : Sender) (t : AudioTransmitter) (h : t.muted ≡ true) where
  not_open : open_endpoint env t ≡ none
  unfolding open_endpoint
  not_open = ground arith

  start_sender-SenderHushed :
      s.phase ≡ sender_head → SenderHushed sender_head t (start_sender env s t)
  unfolding start_sender
  start_sender-SenderHushed e =
      rw (not_open, start_sender)
        (record {
          muted = h;
          captured = refl;
          sent = inl (refl, inl (ap is_sending e));
          ring = λ q. q;
        })

  receive_frame-SenderHushed : SenderHushed receiving t (receive_frame s t)
  unfolding receive_frame
  receive_frame-SenderHushed = elim (List-cases t.queue) [
    | inl empty ↦
        let r : SenderHushed receiving t (record s { phase = sender_head }, t) = record {
          muted = h;
          captured = refl;
          sent = inl (refl, inl refl);
          ring = λ q. q;
        } in
        simp (empty, receive_frame) r
    | inr (frame, rest, e) ↦
        let d : AudioTransmitter = record t { queue = rest } in
        let r : SenderHushed receiving t (record s { phase = has_next frame }, d) = record {
          muted = h;
          captured = refl;
          sent = inl (refl, inl refl);
          ring = λ q. absurd (ground arith);
        } in
        simp (e, receive_frame) r
  ]

  check_endpoint-SenderHushed :
      (frame : AudioFrame) → SenderHushed (has_next frame) t (check_endpoint env frame s t, t)
  unfolding check_endpoint
  check_endpoint-SenderHushed frame =
      rw (not_open, check_endpoint)
        (record { muted = h; captured = refl; sent = inl (refl, inl refl); ring = λ q. q })

-- What follows a send leaves a count of sent frames alone and adds nothing to the ring.
record Watched (t u : AudioTransmitter) : Type 0 where
  muted : u.muted ≡ t.muted
  captured : u.captured ≡ t.captured
  sent : u.sent ≡ t.sent
  ring : NoneAdded t.queue u.queue

module _ (env : SenderEnv) (s : Sender) (t : AudioTransmitter) where
  watch_acks-Watched : Watched t (watch_acks env s t).1 × ((watch_acks env s t).0.phase ≡ s.phase)
  unfolding watch_acks request_pipeline_restart
  watch_acks-Watched = ground arith

  count_send-Watched : Watched t (count_send false s t).1
  unfolding count_send request_pipeline_restart
  count_send-Watched = ground arith

  count_send-phase : (ok : Bool) → (count_send ok s t).0.phase ≡ s.phase
  unfolding count_send
  count_send-phase true = refl
  count_send-phase false = ground arith

module _ (env : SenderEnv) (s : Sender) (t : AudioTransmitter) (h : t.muted ≡ true) where
  after_send :
      (frame : AudioFrame) (token : Text) (head : Sender)
      → head.phase ≡ sender_head
      → (ok : Bool)
      → let r = count_send ok head t in
        SenderHushed (sending frame token) t (watch_acks env r.0 r.1)
  unfolding count_send
  after_send frame token head e true =
      let r = count_send true head t in
      let (w, still) = watch_acks-Watched env r.0 r.1 in
      record {
        muted = w.muted ∙ h;
        captured = w.captured;
        sent = inr (refl, ap is_sending (still ∙ e), w.sent);
        ring = λ q. elim w.ring [ inl same ↦ same ∙ q | inr empty ↦ empty ];
      }
  after_send frame token head e false =
      let r = count_send false head t in
      let c = count_send-Watched env head t in
      let (w, still) = watch_acks-Watched env r.0 r.1 in
      record {
        muted = w.muted ∙ c.muted ∙ h;
        captured = w.captured ∙ c.captured;
        sent =
            inl (
              w.sent ∙ c.sent,
              inr (ap is_sending (still ∙ count_send-phase env head t false ∙ e)),
            );
        ring = λ q. elim w.ring [
          | inl same ↦ elim c.ring [ inl same' ↦ same ∙ same' ∙ q | inr empty ↦ same ∙ empty ]
          | inr empty ↦ empty
        ];
      }

  finish_send-SenderHushed :
      (frame : AudioFrame) (token : Text)
      → SenderHushed (sending frame token) t (finish_send env frame token s t)
  unfolding finish_send
  finish_send-SenderHushed frame token =
      let head : Sender = record s { phase = sender_head } in
      after_send frame token head refl (send_frame env frame token)

  pub sender_at-SenderHushed :
      (p : SenderPhase) → s.phase ≡ p → SenderHushed p t (sender_at p env s t)
  unfolding sender_at
  sender_at-SenderHushed sender_head e = start_sender-SenderHushed env s t h e
  sender_at-SenderHushed receiving e = receive_frame-SenderHushed env s t h
  sender_at-SenderHushed (has_next frame) e = check_endpoint-SenderHushed env s t h frame
  sender_at-SenderHushed (sending frame token) e = finish_send-SenderHushed frame token
