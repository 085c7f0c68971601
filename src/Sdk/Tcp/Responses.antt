-- ===== src/Sdk/Tcp/Responses.antt =====
-- Which packet answers a request of the client.
use voiceapp.Base.{
  ℕ, ◌≡◌, ◌≢◌, refl, sym, ap, ◌∙◌, ◌==◌, ==_iff, false, Bool-cases, none, some, Option-cases, inl,
  inr, List, [], ◌∷◌, ◌++◌, All, Member, arith,
}
use voiceapp.Table.{Table}
use voiceapp.Protocol.Packet.{Packet, request_id}
use voiceapp.Sdk.Tcp.{TcpHandler, respond}
use voiceapp.Sdk.Tcp.Delivers.{deliver}

Member-append_left : {A : Type 0} (x : A) (xs ys : List A) → Member x xs → Member x (xs ++ ys)
Member-append_left x [] ys h = absurd h
Member-append_left x (y ∷ xs) ys (inl e) = inl e
Member-append_left x (y ∷ xs) ys (inr h) = inr (Member-append_left x xs ys h)

Member-append_last : {A : Type 0} (x : A) (xs : List A) → Member x (xs ++ (x ∷ []))
Member-append_last x [] = inl refl
Member-append_last x (y ∷ xs) = inr (Member-append_last x xs)

module _ (tp : Table ℕ) where
  -- A packet with another number leaves the callback of `q`.
  respond_other :
      (p : Packet) (s : TcpHandler tp) (q : ℕ)
      → request_id p ≢ some q
      → tp.get (respond tp p s).pending_responses q ≡ tp.get s.pending_responses q
  unfolding respond
  respond_other p s q ne = elim (Option-cases (request_id p)) [
    | inl e ↦ rw (e, respond)
    | inr (i, e) ↦ elim (Option-cases (tp.get s.pending_responses i)) [
      | inl absent ↦ rw (e, respond) (rw absent)
      | inr (tx, present) ↦
          let differs : (q == i) ≡ false = elim (Bool-cases (q == i)) [
            | inl same ↦ absurd (ne (e ∙ ap some (sym ((==_iff q i).0 same))))
            | inr other ↦ other
          ] in
          rw (e, respond) (rw present (tp.get-remove s.pending_responses i q ∙ rw differs))
    ]
  ]

  -- A callback that is gone does not come back.
  respond_gone :
      (p : Packet) (s : TcpHandler tp) (q : ℕ)
      → tp.get s.pending_responses q ≡ none
      → tp.get (respond tp p s).pending_responses q ≡ none
  unfolding respond
  respond_gone p s q gone = elim (Option-cases (request_id p)) [
    | inl e ↦ rw (e, respond) gone
    | inr (i, e) ↦ elim (Option-cases (tp.get s.pending_responses i)) [
      | inl absent ↦ rw (e, respond) (rw absent gone)
      | inr (tx, present) ↦
          rw (e, respond)
            (rw present (
              tp.get-remove s.pending_responses i q
              ∙ (elim (Bool-cases (q == i)) [ inl same ↦ rw same | inr other ↦ rw other gone ])))
    ]
  ]

  -- What was given to a caller stays given.
  respond_grows :
      (p : Packet) (s : TcpHandler tp) (x : ℕ × Packet)
      → Member x s.responses
      → Member x (respond tp p s).responses
  unfolding respond
  respond_grows p s x m = elim (Option-cases (request_id p)) [
    | inl e ↦ rw (e, respond, Member) m
    | inr (i, e) ↦ elim (Option-cases (tp.get s.pending_responses i)) [
      | inl absent ↦ rw (e, respond, Member) (rw (absent, Member) m)
      | inr (tx, present) ↦
          rw (e, respond, Member) (rw (present, Member) (Member-append_left x s.responses _ m))
    ]
  ]

  respond_hit :
      (p : Packet) (s : TcpHandler tp) (q tx : ℕ)
      → request_id p ≡ some q
      → tp.get s.pending_responses q ≡ some tx
      → Member (tx, p) (respond tp p s).responses
        × (tp.get (respond tp p s).pending_responses q ≡ none)
  unfolding respond
  respond_hit p s q tx known waits = (
    rw (known, respond, Member) (rw (waits, Member) (Member-append_last (tx, p) s.responses)),
    rw (known, respond) (rw waits (tp.get-remove s.pending_responses q q ∙ ground arith)),
  )

  deliver_after :
      (ps : List Packet) (s : TcpHandler tp) (q : ℕ) (x : ℕ × Packet)
      → Member x s.responses
      → tp.get s.pending_responses q ≡ none
      → Member x (deliver tp ps s).responses × (tp.get (deliver tp ps s).pending_responses q ≡ none)
  unfolding deliver
  deliver_after [] s q x m gone = (m, gone)
  deliver_after (p ∷ ps) s q x m gone =
      deliver_after ps _ q x (respond_grows p s x m) (respond_gone p s q gone)

  -- A request whose number is waited for is answered by the first packet that has the number,
  -- whatever packets come before it and after it, and then is waited for no more.
  pub deliver_first :
      (before after : List Packet) (p : Packet) (s : TcpHandler tp) (q tx : ℕ)
      → request_id p ≡ some q
      → tp.get s.pending_responses q ≡ some tx
      → All (λ x. request_id x ≢ some q) before
      → Member (tx, p) (deliver tp (before ++ (p ∷ after)) s).responses
        × (tp.get (deliver tp (before ++ (p ∷ after)) s).pending_responses q ≡ none)
  unfolding deliver
  deliver_first [] after p s q tx known waits others =
      let (m, gone) = respond_hit p s q tx known waits in deliver_after after _ q (tx, p) m gone
  deliver_first (b ∷ before) after p s q tx known waits others =
      deliver_first before after p _ q tx known (respond_other b s q others.0 ∙ waits) others.1
