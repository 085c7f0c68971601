-- ===== src/Sdk/Tcp/Delivers.antt =====
-- What the client's task makes of the packets that the server sends.
use voiceapp.Base.{
  ℕ, ◌≡◌, ◌≢◌, refl, sym, ap, ◌∙◌, some, Option-cases, inl, inr, List, [], ◌∷◌, ◌++◌, append_assoc,
  append-nil, All,
}
use voiceapp.Table.{Table}
use voiceapp.Protocol.Packet.{Packet, request_id}
use voiceapp.Protocol.Stream.{Outcome, Outcome-cases, finished, stuck, receive}
use voiceapp.Protocol.Stream
use voiceapp.Protocol.Stream.Chunks.{IsSendable, frames, concat, handle_all, receive_all}
use voiceapp.Protocol.Stream.Delivery.{delivered, receive_all-frames}
use voiceapp.Sdk.Tcp.{
  TcpHandler, respond, handle_packet, continue, handle_incoming, Turn, incoming, turn, run,
}

-- Pieces of a stream as a socket gives them: none is empty.
abbrev pub Piece : List ℕ → Type 0
Piece bytes = bytes ≢ []

finished_eq :
    {S : Type 0} {xs ys : List ℕ} {s s' : S} → finished xs s ≡ finished ys s' → (xs ≡ ys) × (s ≡ s')
finished_eq e = (cc, cc)

panicked_finished : {S : Type 0} {xs : List ℕ} {s : S} → Stream.panicked ≡ finished xs s → ⊥
panicked_finished e = absurd (cc)

stuck_finished : {S : Type 0} {xs : List ℕ} {s : S} → stuck ≡ finished xs s → ⊥
stuck_finished e = absurd (cc)

module _ (tp : Table ℕ) where
  unfoldable pub reads : List (List ℕ) → List (Turn tp)
  reads [] = []
  reads (c ∷ cs) = incoming (some c) ∷ reads cs

  -- The packets, one by one.
  unfoldable pub deliver : List Packet → TcpHandler tp → TcpHandler tp
  deliver [] s = s
  deliver (p ∷ ps) s =
      let s' = respond tp p s in deliver ps (record s' { packets = s'.packets ++ (p ∷ []) })

  handle_all-deliver :
      (ps : List Packet) (s : TcpHandler tp)
      → handle_all (handle_packet tp) ps s ≡ some (deliver ps s)
  unfolding handle_all handle_packet deliver
  handle_all-deliver [] s = refl
  handle_all-deliver (p ∷ ps) s = handle_all-deliver ps _

  respond-packets : (p : Packet) (s : TcpHandler tp) → (respond tp p s).packets ≡ s.packets
  unfolding respond
  respond-packets p s = elim (Option-cases (request_id p)) [
    | inl e ↦ rw (e, respond)
    | inr (q, e) ↦ elim (Option-cases (tp.get s.pending_responses q)) [
      | inl absent ↦ rw (e, respond) (rw absent)
      | inr (tx, present) ↦ rw (e, respond) (rw present)
    ]
  ]

  deliver-packets :
      (ps : List Packet) (s : TcpHandler tp) → (deliver ps s).packets ≡ s.packets ++ ps
  unfolding deliver
  deliver-packets [] s = sym (append-nil s.packets)
  deliver-packets (p ∷ ps) s =
      let s' = respond tp p s in
      deliver-packets ps (record s' { packets = s'.packets ++ (p ∷ []) })
      ∙ append_assoc s'.packets (p ∷ []) ps
      ∙ rw (respond-packets p s)

  run-reads :
      (cs : List (List ℕ)) (buf : List ℕ) (s s' : TcpHandler tp)
      → All Piece cs
      → receive_all (handle_packet tp) cs buf s ≡ finished [] s'
      → run tp (reads cs) (record { handler = s; accumulator = buf })
        ≡ some (record { handler = s'; accumulator = [] })
  unfolding receive_all run turn handle_incoming continue reads
  run-reads [] buf s s' pieces e = let whole = finished_eq e in rw (whole.0, whole.1)
  run-reads ([] ∷ cs) buf s s' pieces e = absurd (pieces.0 refl)
  run-reads ((b ∷ bs) ∷ cs) buf s s' pieces e =
      elim (Outcome-cases (receive (handle_packet tp) buf s (b ∷ bs))) [
        | inl (rest, s1, h) ↦
            rw (h, turn, run, handle_incoming, continue)
              (run-reads cs rest s1 s' pieces.1 (sym (rw (h, receive_all)) ∙ e))
        | inr (inl h) ↦ absurd (panicked_finished (sym (rw (h, receive_all)) ∙ e))
        | inr (inr h) ↦ absurd (stuck_finished (sym (rw (h, receive_all)) ∙ e))
      ]

  -- For packets `ps` of the server with their fields in range and payloads that fit: however the stream
  -- of their frames is cut into reads that are not empty, the client's task goes on to
  -- the end, passes on to the event handler exactly `ps`, in that order, and holds no bytes back.
  pub run-packets :
      (cs : List (List ℕ)) (ps : List Packet) (s : TcpHandler tp)
      → All IsSendable ps
      → All Piece cs
      → concat cs ≡ frames ps
      → (s' : TcpHandler tp) × (run tp (reads cs) (record { handler = s; accumulator = [] })
          ≡ some (record { handler = s'; accumulator = [] }))
        × (s'.packets ≡ s.packets ++ ps)
  unfolding delivered
  run-packets cs ps s sends pieces e = (
    deliver ps s,
    run-reads cs [] s (deliver ps s) pieces (
        receive_all-frames (handle_packet tp) cs ps s sends e
        ∙ ap (delivered (handle_packet tp)) (handle_all-deliver ps s)),
    deliver-packets ps s,
  )
