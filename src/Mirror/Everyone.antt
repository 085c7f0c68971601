-- ===== src/Mirror/Everyone.antt =====
-- What the room of one connection shows of the users of all others.
use voiceapp.Base.{
  some_inj, some-none, ℕ, ◌≡◌, ◌≢◌, refl, sym, ap, ◌∙◌, ◌==◌, ==_iff, inl, inr, false, Bool-cases,
  Option, none, some, List, [], ◌∷◌, ◌++◌, append_assoc, append-nil, arith,
}
use voiceapp.Table.{Table}
use voiceapp.Protocol.Packet.{
  ParticipantInfo, Packet, login_request, voice_auth_request, join_voice_channel_request,
  leave_voice_channel_request, chat_message_request, ping_request, login_response,
  voice_auth_response, join_voice_channel_response, leave_voice_channel_response,
  chat_message_response, ping_response, user_joined_server, user_joined_voice, user_left_voice,
  user_left_server, user_sent_message, user_mute_state, voice_data,
}
use voiceapp.Server.User.{User}
use voiceapp.Server.Broadcast.{BroadcastMessage}
use voiceapp.Server.World.{World}
use voiceapp.Server.Handler.Keeps.{Keeps}
use voiceapp.Server.Management.Reach.{before}
use voiceapp.Server.Management.Agreement.{Distinct}
use voiceapp.Sdk.Events
use voiceapp.Sdk.Events.{ClientEvent, listen_to_packets}
use voiceapp.Desktop.Room.Roster.{told_all}
use voiceapp.Mirror.{shown, heard, Carry, Announces, Departs}

pub beq_ne : (a b : ℕ) → (a == b) ≡ false → a ≢ b
beq_ne a b h e = ground arith

handle_packet-append :
    (p : Packet) (es : List ClientEvent)
    → Events.handle_packet p es ≡ es ++ Events.handle_packet p []
unfolding Events.handle_packet
handle_packet-append (login_request _ _) es = sym (append-nil es)
handle_packet-append (voice_auth_request _ _) es = sym (append-nil es)
handle_packet-append (join_voice_channel_request _) es = sym (append-nil es)
handle_packet-append (leave_voice_channel_request _) es = sym (append-nil es)
handle_packet-append (chat_message_request _ _) es = sym (append-nil es)
handle_packet-append (ping_request _) es = sym (append-nil es)
handle_packet-append (login_response _ _ _ _) es = refl
handle_packet-append (voice_auth_response _ _) es = sym (append-nil es)
handle_packet-append (join_voice_channel_response _ _) es = sym (append-nil es)
handle_packet-append (leave_voice_channel_response _ _) es = sym (append-nil es)
handle_packet-append (chat_message_response _ _) es = sym (append-nil es)
handle_packet-append (ping_response _) es = sym (append-nil es)
handle_packet-append (user_joined_server _) es = refl
handle_packet-append (user_joined_voice _) es = refl
handle_packet-append (user_left_voice _) es = refl
handle_packet-append (user_left_server _) es = refl
handle_packet-append (user_sent_message _ _ _) es = refl
handle_packet-append (user_mute_state _ _) es = refl
handle_packet-append (voice_data _ _ _ _) es = sym (append-nil es)

listen-append :
    (ps : List Packet) (es : List ClientEvent)
    → listen_to_packets ps es ≡ es ++ listen_to_packets ps []
unfolding listen_to_packets
listen-append [] es = sym (append-nil es)
listen-append (p ∷ ps) es =
    ap (listen_to_packets ps) (handle_packet-append p es)
    ∙ listen-append ps (es ++ Events.handle_packet p [])
    ∙ append_assoc es (Events.handle_packet p []) (listen_to_packets ps [])
    ∙ ap (◌++◌ es) (sym (listen-append ps (Events.handle_packet p [])))

told_all-append :
    (k : ℕ) (xs ys : List ClientEvent) (o : Option ParticipantInfo)
    → told_all k (xs ++ ys) o ≡ told_all k ys (told_all k xs o)
told_all-append k [] ys o = refl
told_all-append k (x ∷ xs) ys o = told_all-append k xs ys _

listen_twice :
    (ps qs : List Packet) (es : List ClientEvent)
    → listen_to_packets (ps ++ qs) es ≡ listen_to_packets qs (listen_to_packets ps es)
unfolding listen_to_packets
listen_twice [] qs es = refl
listen_twice (p ∷ ps) qs es = listen_twice ps qs _

pub heard-append :
    (k : ℕ) (ps qs : List Packet) (o : Option ParticipantInfo)
    → heard k (ps ++ qs) o ≡ heard k qs (heard k ps o)
heard-append k ps qs o =
    ap (λ es. told_all k es o) (listen_twice ps qs [] ∙ listen-append qs (listen_to_packets ps []))
    ∙ told_all-append k (listen_to_packets ps []) (listen_to_packets qs []) o

pub Carry-append :
    (observer : ℕ) (ms ns : List BroadcastMessage) (ps qs : List Packet)
    → Carry observer ms ps
    → Carry observer ns qs
    → Carry observer (ms ++ ns) (ps ++ qs)
Carry-append observer [] ns [] qs h k = k
Carry-append observer (m ∷ ms) ns (p ∷ ps) qs h k =
    (h.0, h.1, Carry-append observer ms ns ps qs h.2 k)
Carry-append observer [] ns (p ∷ ps) qs h k = elim h [ ]
Carry-append observer (m ∷ ms) ns [] qs h k = elim h [ ]

module _ (t : Table User) (observer : ℕ) where
  -- What a room shows of each number: the users of the other connections as they are, and nothing of
  -- a number that no user has.
  pub record Mirrors (users : t.Map) (room : ℕ → Option ParticipantInfo) : Type 0 where
    pub each : (a : ℕ) (u : User) → a ≢ observer → t.get users a ≡ some u → room u.id ≡ shown u
    pub nobody : (k : ℕ) → ((a : ℕ) (u : User) → t.get users a ≡ some u → u.id ≢ k) → room k ≡ none

  pub announced-Mirrors :
      (address : ℕ) (u : User) (w w' : World t) (room : ℕ → Option ParticipantInfo)
      (h : Announces t address observer u w w')
      → address ≢ observer
      → t.get w.users address ≡ some u
      → Distinct t w.users
      → Keeps t address w.users w'.users
      → Mirrors w.users room
      → Mirrors w'.users (λ k. heard k h.packets (room k))
  announced-Mirrors address u w w' room h apart there distinct kept m =
      let (u0, there0, same0, _) =
        before t w.users w'.users address h.user (kept.same_identity address) h.there in
      let same : u.id ≡ h.user.id =
        ap (λ (x : User). x.id) (some_inj (sym there ∙ there0)) ∙ same0 in
      record {
        each = λ a v away e. elim (Bool-cases (a == address)) [
          | inl here ↦
              let is : h.user ≡ v =
                some_inj
                  (sym h.there ∙ ap (t.get w'.users) (sym ((==_iff a address).0 here)) ∙ e) in
              let v_id : v.id ≡ u.id = ap (λ (x : User). x.id) (sym is) ∙ sym same in
              ap (λ k. heard k h.packets (room k)) v_id
              ∙ ap (heard u.id h.packets) (m.each address u apart there)
              ∙ h.own
              ∙ ap shown is
          | inr elsewhere ↦
              let e0 = sym (kept.others a (beq_ne a address elsewhere)) ∙ e in
              h.others v.id (room v.id)
                (λ i. absurd (beq_ne a address elsewhere (distinct a address v u e0 there i)))
              ∙ m.each a v away e0
        ];
        nobody = λ k free.
            h.others k (room k) (λ i. absurd (free address h.user h.there (sym same ∙ sym i)))
            ∙ m.nobody k (λ a v e i.
              let (v', e', same', _) =
                before t w'.users w.users a v (sym (kept.same_identity a)) e in
              absurd (free a v' e' (same' ∙ i)));
      }

  pub departed-Mirrors :
      (address : ℕ) (u : User) (w w' : World t) (room : ℕ → Option ParticipantInfo)
      (h : Departs t address observer u w w')
      → address ≢ observer
      → t.get w.users address ≡ some u
      → Distinct t w.users
      → ((a : ℕ) → a ≢ address → t.get w'.users a ≡ t.get w.users a)
      → Mirrors w.users room
      → Mirrors w'.users (λ k. heard k h.packets (room k))
  departed-Mirrors address u w w' room h apart there distinct others m = record {
    each = λ a v away e. elim (Bool-cases (a == address)) [
      | inl here ↦
          absurd (some-none (sym e ∙ ap (t.get w'.users) ((==_iff a address).0 here) ∙ h.gone))
      | inr elsewhere ↦
          let e0 = sym (others a (beq_ne a address elsewhere)) ∙ e in
          h.others v.id (room v.id)
            (λ i. absurd (beq_ne a address elsewhere (distinct a address v u e0 there i)))
          ∙ m.each a v away e0
    ];
    nobody = λ k free. elim (Bool-cases (k == u.id)) [
      | inl own ↦
          ap (λ j. heard j h.packets (room j)) ((==_iff k u.id).0 own)
          ∙ ap (heard u.id h.packets) (m.each address u apart there)
          ∙ h.own
      | inr other ↦
          h.others k (room k) (beq_ne k u.id other)
          ∙ m.nobody k (λ a v e i. elim (Bool-cases (a == address)) [
            | inl here ↦ absurd (
                beq_ne k u.id other (
                  sym i
                  ∙ ap (λ (x : User). x.id)
                      (some_inj (sym e ∙ ap (t.get w.users) ((==_iff a address).0 here) ∙ there))))
            | inr elsewhere ↦ absurd (free a v (others a (beq_ne a address elsewhere) ∙ e) i)
          ])
    ];
  }

  unnamed_lem : (u : User) → u.username ≡ none → shown u ≡ none
  unfolding shown
  unnamed_lem u e = rw (e, shown)

  -- A user without a name, at a free address and with a number that no user has.
  pub arrived-Mirrors :
      (address : ℕ) (u : User) (users : t.Map) (room : ℕ → Option ParticipantInfo)
      → u.username ≡ none
      → t.get users address ≡ none
      → ((a : ℕ) (v : User) → t.get users a ≡ some v → v.id ≢ u.id)
      → Mirrors users room
      → Mirrors (t.insert users address u) room
  arrived-Mirrors address u users room unnamed vacant fresh m = record {
    each = λ a v away e. elim (Bool-cases (a == address)) [
      | inl here ↦
          let is : u ≡ v = some_inj (sym (rw here) ∙ sym (t.get-insert users address u a) ∙ e) in
          ap (λ (x : User). room x.id) (sym is)
          ∙ m.nobody u.id fresh
          ∙ sym (unnamed_lem u unnamed)
          ∙ ap shown is
      | inr elsewhere ↦ m.each a v away (sym (t.get-insert users address u a ∙ rw elsewhere) ∙ e)
    ];
    nobody = λ k free. m.nobody k (λ a v e. elim (Bool-cases (a == address)) [
      | inl here ↦
          absurd (some-none (sym e ∙ ap (t.get users) ((==_iff a address).0 here) ∙ vacant))
      | inr elsewhere ↦ free a v (t.get-insert users address u a ∙ rw elsewhere e)
    ]);
  }
