-- ===== src/Protocol/Stream/Delivery.antt =====
-- What the stream loop hands on does not depend on how the stream was cut.
use voiceapp.Base.{
  ok, ℕ, zero, suc, ◌≤◌, ◌<◌, ◌≡◌, refl, sym, ap, ◌∙◌, subst, ◌⊎◌, inl, inr, Option, none, some,
  Option-cases, List, [], ◌∷◌, ◌++◌, append_assoc, arith, length, length-append, drop, All,
  length-drop,
}
use native.Mathlib.Decide.{dec_le}
use voiceapp.Protocol.Reader.{◌>>=◌, read_u8}
use voiceapp.Protocol.Bytes.{to_be_bytes}
use voiceapp.Protocol.Packet.{Packet, decode, read_header}
use voiceapp.Protocol.Layout.{frame}
use voiceapp.Protocol.RoundTrip.{decode-frame}
use voiceapp.Protocol.Stream.{Outcome, finished, panicked, process_loop, process, receive}
use voiceapp.Protocol.Stream.Chunks.{
  IsSendable, frames, concat, handle_all, receive_all, loop-Waits, loop_step, Short, frame_cut,
  cut_of_stream, whole_of_stream,
}

frame_pos : (p : Packet) → 3 ≤ length (frame p)
unfolding frame to_be_bytes
frame_pos p = omega arith

Short-nil : (ps : List Packet) → Short [] ps
Short-nil [] = tt
Short-nil (p ∷ ps) = omega (arith, frame_pos p)

module _ {ℓ} {S : Type ℓ} (handle : Packet → S → Option S) where
  -- A run of the loop on a part of the stream of `ps`, with `more` to come: it took the packets
  -- before `todo`, and left a part of the next one.
  record Progress (ps : List Packet) (more : List ℕ) (s : S) (out : Outcome S) : Type ℓ where
    todo : List Packet
    left : List ℕ
    state : S
    out_is : out ≡ finished left state
    rest : left ++ more ≡ frames todo
    short : Short left todo
    sendable : All IsSendable todo
    same : handle_all handle ps s ≡ handle_all handle todo state

  Progresses : List Packet → List ℕ → S → Outcome S → Type ℓ
  Progresses ps more s out =
      ((handle_all handle ps s ≡ none) × (out ≡ panicked)) ⊎ Progress ps more s out

  waits_Progress :
      (p : Packet) (ps : List Packet) (fuel : ℕ) (buf more : List ℕ) (s : S)
      → All IsSendable (p ∷ ps)
      → buf ++ more ≡ frames (p ∷ ps)
      → length buf < length (frame p)
      → Progress (p ∷ ps) more s (process_loop handle (suc fuel) buf s)
  unfolding frames
  waits_Progress p ps fuel buf more s sends e h = record {
    todo = p ∷ ps;
    left = buf;
    state = s;
    out_is = loop-Waits handle fuel buf s (
        frame_cut p buf (drop (length buf) (frame p)) sends.0.fits
          (cut_of_stream buf more (frame p) (frames ps) e h) h);
    rest = e;
    short = h;
    sendable = sends;
    same = refl;
  }

  -- The run after the first packet is the run.
  later :
      (p : Packet) (ps : List Packet) (more : List ℕ) (s s' : S) (out : Outcome S)
      → handle p s ≡ some s'
      → Progresses ps more s' out
      → Progresses (p ∷ ps) more s out
  unfolding Progresses handle_all
  later p ps more s s' out go (inl (none_left, panic)) = inl (rw (go, handle_all) none_left, panic)
  later p ps more s s' out go (inr r) = inr (record {
    todo = r.todo;
    left = r.left;
    state = r.state;
    out_is = r.out_is;
    rest = r.rest;
    short = r.short;
    sendable = r.sendable;
    same = rw (go, handle_all) r.same;
  })

  loop-Progresses :
      (ps : List Packet) (fuel : ℕ) (buf more : List ℕ) (s : S)
      → length buf < fuel
      → All IsSendable ps
      → buf ++ more ≡ frames ps
      → Progresses ps more s (process_loop handle fuel buf s)
  unfolding Progresses handle_all frames decode read_header ◌>>=◌ read_u8
  loop-Progresses ps zero buf more s h sends e = elim h [ ]
  loop-Progresses [] (suc fuel) (b ∷ bs) more s h sends e = absurd (cc)
  loop-Progresses [] (suc fuel) [] more s h sends e = inr (record {
    todo = [];
    left = [];
    state = s;
    out_is = loop-Waits handle fuel [] s tt;
    rest = e;
    short = tt;
    sendable = tt;
    same = refl;
  })
  loop-Progresses (p ∷ ps) (suc fuel) buf more s h sends e =
      elim (dec_le (length (frame p)) (length buf)) [
        | no short ↦ inr (waits_Progress p ps fuel buf more s sends e (omega arith))
        | yes long ↦
            let n = length (frame p) in
            let (same, rest) = whole_of_stream buf more (frame p) (frames ps) e long in
            let decoded : decode buf ≡ ok (p, n) =
              subst (λ bs. decode bs ≡ ok (p, n)) same
                (decode-frame p (drop n buf) sends.0.wire sends.0.fits) in
            elim (Option-cases (handle p s)) [
              | inl panic ↦
                  inl (rw (panic, handle_all), loop_step handle fuel buf s decoded ∙ rw panic)
              | inr (s', go) ↦
                  subst (λ out. Progresses (p ∷ ps) more s out)
                    (sym (loop_step handle fuel buf s decoded ∙ rw go))
                    (later p ps more s s' _ go (
                      loop-Progresses ps fuel (drop n buf) more s'
                        (omega (arith, length-drop n buf, frame_pos p)) sends.1 rest))
            ]
      ]

  -- What is told to the caller at the end of a stream.
  unfoldable pub delivered : Option S → Outcome S
  delivered none = panicked
  delivered (some s) = finished [] s

  receive_all_from :
      (chunks : List (List ℕ)) (ps : List Packet) (buf : List ℕ) (s : S)
      → All IsSendable ps
      → Short buf ps
      → buf ++ concat chunks ≡ frames ps
      → receive_all handle chunks buf s ≡ delivered (handle_all handle ps s)
  unfolding receive_all receive process concat delivered handle_all frames Progresses
  receive_all_from [] [] [] s sends short e = refl
  receive_all_from [] [] (b ∷ bs) s sends short e = absurd (cc)
  receive_all_from [] (p ∷ ps) buf s sends short e =
      absurd (omega (arith, ap length e, length-append (frame p) (frames ps), length-append buf []))
  receive_all_from (c ∷ cs) ps buf s sends short e =
      elim (loop-Progresses ps (suc (length (buf ++ c))) (buf ++ c) (concat cs) s (omega arith)
        sends (append_assoc buf c (concat cs) ∙ e)) [
          | inl (panic, out) ↦ rw (out, receive_all, receive, process) (rw panic)
          | inr r ↦
              rw (r.out_is, receive_all, receive, process)
                (rw (
                  receive_all_from cs r.todo r.left r.state r.sendable r.short r.rest,
                  receive_all,
                  r.same,
                ))
        ]

  -- For packets `ps` with their fields in range and payloads that fit: however the stream of their
  -- frames is cut into chunks, the loop hands on the packets of
  -- `ps`, each once and in their order, and at the end no bytes are left; it panics if and only if
  -- handling them one by one does.
  pub receive_all-frames :
      (chunks : List (List ℕ)) (ps : List Packet) (s : S)
      → All IsSendable ps
      → concat chunks ≡ frames ps
      → receive_all handle chunks [] s ≡ delivered (handle_all handle ps s)
  receive_all-frames chunks ps s sends e = receive_all_from chunks ps [] s sends (Short-nil ps) e
