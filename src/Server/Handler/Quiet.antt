-- ===== src/Server/Handler/Quiet.antt =====
-- The handlers that tell the voice relay nothing, and change nothing that it knows.
use voiceapp.Base.{
  ℕ, ◌≡◌, refl, ap, ◌∙◌, ◌==◌, ==_iff, Bool, true, false, Bool-cases, inl, inr, Option, none, some,
  Option-cases, List, if◌then◌else◌,
}
use voiceapp.Base.Runs.{pure}
use voiceapp.Table.{Table}
use voiceapp.Protocol.Packet.{
  Packet, login_request, voice_auth_request, join_voice_channel_request,
  leave_voice_channel_request, chat_message_request, ping_request, login_response,
  voice_auth_response, join_voice_channel_response, leave_voice_channel_response,
  chat_message_response, ping_response, user_joined_server, user_joined_voice, user_left_voice,
  user_left_server, user_sent_message, user_mute_state, voice_data,
}
use voiceapp.Server.User.{User}
use voiceapp.Server.World.{World, Handler, change_user}
use voiceapp.Server.World.Frames.{
  world_after, Frame, Within, Within-bind, Within-then, Within-pure, Within-respond,
  Within-broadcast,
}
use voiceapp.Server.Handler.{
  announce_left, is_refused, accept_login, respond_login, broadcast_message, handle_login_request,
  handle_chat_message_request, handle_ping_request, handle_user_mute_state, handle_packet,
}

-- What the relay is told of a user.
abbrev pub profile : User → ℕ × ℕ × Bool
profile u = (u.id, u.token, u.in_voice)

abbrev pub profile_at : (t : Table User) → t.Map → ℕ → Option (ℕ × ℕ × Bool)
profile_at t users a = elim (t.get users a) [ none ↦ none | some u ↦ some (profile u) ]

module _ (t : Table User) where
  pub record Quiet (w w' : World t) : Type 0 where
    pub events : w'.events ≡ w.events
    pub profiles : (a : ℕ) → profile_at t w'.users a ≡ profile_at t w.users a

  pub Quiet_frame : Frame t Quiet
  Quiet_frame = record {
    same = λ w. record { events = refl; profiles = λ a. refl };
    next =
        λ h k. record { events = k.events ∙ h.events; profiles = λ a. k.profiles a ∙ h.profiles a };
    writes = λ w bytes. record { events = refl; profiles = λ a. refl };
    tells = λ w bs. record { events = refl; profiles = λ a. refl };
  }

  profile_of_insert :
      (users : t.Map) (address : ℕ) (old new : User) (a : ℕ)
      → t.get users address ≡ some old
      → profile new ≡ profile old
      → profile_at t (t.insert users address new) a ≡ profile_at t users a
  profile_of_insert users address old new a e same = elim (Bool-cases (a == address)) [
    | inl here ↦
        let a_is : a ≡ address = (==_iff a address).0 here in
        rw (t.get-insert users address new a, profile_at, here, a_is, e) (ap some same)
    | inr there ↦ rw (t.get-insert users address new a, profile_at, there)
  ]

  Quiet-change_user :
      (address : ℕ) (change : User → User)
      → ((u : User) → profile (change u) ≡ profile u)
      → Within t Quiet_frame (change_user t address change)
  unfolding change_user
  Quiet-change_user address change same = record {
    at = λ w. elim (Option-cases (t.get w.users address)) [
      | inl e ↦ rw (e, world_after) (Quiet_frame.same w)
      | inr (u, e) ↦
          rw (e, world_after)
            (record {
              events = refl;
              profiles = λ a. profile_of_insert w.users address u (change u) a e (same u);
            })
    ];
  }

  Quiet-respond_login : (r : ℕ) (u : User) → Within t Quiet_frame (respond_login t r u)
  unfolding respond_login
  Quiet-respond_login r u = record { at = λ w. (Within-respond t Quiet_frame _).at w }

  Quiet-message : (i : ℕ) (m : List ℕ) → Within t Quiet_frame (broadcast_message t i m)
  unfolding broadcast_message
  Quiet-message i m = record { at = λ w. (Within-broadcast t Quiet_frame _).at w }

  Quiet-login : (a r : ℕ) (name : List ℕ) → Within t Quiet_frame (handle_login_request t a r name)
  unfolding handle_login_request accept_login
  Quiet-login a r name = elim (Bool-cases (is_refused t name)) [
    | inl refused ↦ rw (refused, handle_login_request) (Within-respond t Quiet_frame _)
    | inr taken ↦
        rw (taken, handle_login_request)
          (Within-bind t Quiet_frame (Quiet-change_user a _ (λ u. refl)) (λ u.
            Within-then t Quiet_frame (Quiet-respond_login r u) (Within-broadcast t Quiet_frame _)))
  ]

  Quiet-chat : (a r : ℕ) (m : List ℕ) → Within t Quiet_frame (handle_chat_message_request t a r m)
  unfolding handle_chat_message_request
  Quiet-chat a r m =
      Within-bind t Quiet_frame (Quiet-change_user a _ (λ u. refl))
        (λ u. Within-then t Quiet_frame (Within-respond t Quiet_frame _) (Quiet-message _ _))

  Quiet-mute : (a i : ℕ) (b : Bool) → Within t Quiet_frame (handle_user_mute_state t a i b)
  unfolding handle_user_mute_state
  Quiet-mute a i b =
      Within-bind t Quiet_frame (Quiet-change_user a _ (λ u. refl))
        (λ u. Within-broadcast t Quiet_frame _)

  pub Quiet-announce_left : (u : User) → Within t Quiet_frame (announce_left t u)
  unfolding announce_left
  Quiet-announce_left u =
      Within-then t Quiet_frame (Within-broadcast t Quiet_frame _)
        (voice u.in_voice (Within-broadcast t Quiet_frame _))
    where
      voice :
          (b : Bool) {m : Handler t (Unit {0})}
          → Within t Quiet_frame m
          → Within t Quiet_frame (if b then m else pure tt)
      voice true h = h
      voice false h = Within-pure t Quiet_frame tt

  -- The packets that change who is in the voice channel.
  abbrev pub IsVoiceChange : Packet → Type 0
  IsVoiceChange (join_voice_channel_request _) = Unit {0}
  IsVoiceChange (leave_voice_channel_request _) = Unit {0}
  IsVoiceChange _ = ⊥

  pub handle_packet-Quiet :
      (a : ℕ) (p : Packet) → (IsVoiceChange p → ⊥) → Within t Quiet_frame (handle_packet t a p)
  unfolding handle_packet handle_ping_request
  handle_packet-Quiet a (login_request r name) h = Quiet-login a r name
  handle_packet-Quiet a (join_voice_channel_request r) h = absurd (h tt)
  handle_packet-Quiet a (leave_voice_channel_request r) h = absurd (h tt)
  handle_packet-Quiet a (chat_message_request r m) h = Quiet-chat a r m
  handle_packet-Quiet a (ping_request r) h = Within-respond t Quiet_frame (ping_response r)
  handle_packet-Quiet a (user_mute_state i b) h = Quiet-mute a i b
  handle_packet-Quiet a (voice_auth_request r x) h = Within-pure t Quiet_frame tt
  handle_packet-Quiet a (login_response r x y z) h = Within-pure t Quiet_frame tt
  handle_packet-Quiet a (voice_auth_response r x) h = Within-pure t Quiet_frame tt
  handle_packet-Quiet a (join_voice_channel_response r x) h = Within-pure t Quiet_frame tt
  handle_packet-Quiet a (leave_voice_channel_response r x) h = Within-pure t Quiet_frame tt
  handle_packet-Quiet a (chat_message_response r x) h = Within-pure t Quiet_frame tt
  handle_packet-Quiet a (ping_response r) h = Within-pure t Quiet_frame tt
  handle_packet-Quiet a (user_joined_server x) h = Within-pure t Quiet_frame tt
  handle_packet-Quiet a (user_joined_voice x) h = Within-pure t Quiet_frame tt
  handle_packet-Quiet a (user_left_voice x) h = Within-pure t Quiet_frame tt
  handle_packet-Quiet a (user_left_server x) h = Within-pure t Quiet_frame tt
  handle_packet-Quiet a (user_sent_message x y z) h = Within-pure t Quiet_frame tt
  handle_packet-Quiet a (voice_data x y z v) h = Within-pure t Quiet_frame tt
