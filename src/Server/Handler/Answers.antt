-- ===== src/Server/Handler/Answers.antt =====
-- What a connection writes back for a packet.
use voiceapp.Base.{
  ℕ, ◌<◌, ◌≡◌, refl, ap, ◌∙◌, ◌⊎◌, inl, inr, Bool, true, false, Option, none, some, List, [], ◌∷◌,
  ◌++◌, length, Run, done, failed, panicked, arith, Member, ==_iff,
}
use voiceapp.Base.Runs.{◌>>=◌, ◌>>◌, pure}
use voiceapp.Table.{Table}
use voiceapp.Protocol.Bytes.{to_be_bytes}
use voiceapp.Protocol.Packet.{
  Packet, voice_auth_request, voice_auth_response, user_joined_voice, user_left_voice,
  user_left_server, user_sent_message, user_mute_state, voice_data, login_request,
  join_voice_channel_request, leave_voice_channel_request, chat_message_request, ping_request,
  login_response, join_voice_channel_response, leave_voice_channel_response, chat_message_response,
  ping_response, user_joined_server,
}
use voiceapp.Protocol.Layout.{payload, frame, max_payload}
use voiceapp.Protocol.Encoding.{encode-fits}
use voiceapp.Server.Error.{ServerError}
use voiceapp.Server.User.{User}
use voiceapp.Server.Event.{Event}
use voiceapp.Server.Broadcast.{BroadcastMessage}
use voiceapp.Server.World.{World, Handler, write_all, respond, send_event, broadcast, change_user}
use voiceapp.Server.Handler.{
  participants, is_refused, respond_login, accept_login, broadcast_message, handle_login_request,
  handle_join_voice_channel_request, handle_leave_voice_channel_request,
  handle_chat_message_request, handle_ping_request, handle_user_mute_state, handle_packet,
}
use voiceapp.Server.Handler.Login.{info, participants_iff}

-- The response that belongs to a request.
abbrev pub Answers : Packet → Packet → Type 0
Answers (login_request r _) (login_response r' _ _ _) = r' ≡ r
Answers (join_voice_channel_request r) (join_voice_channel_response r' b) = (r' ≡ r) × (b ≡ true)
Answers (leave_voice_channel_request r) (leave_voice_channel_response r' b) = (r' ≡ r) × (b ≡ true)
Answers (chat_message_request r _) (chat_message_response r' b) = (r' ≡ r) × (b ≡ true)
Answers (ping_request r) (ping_response r') = r' ≡ r
Answers _ _ = ⊥

-- The requests that the server answers, beside the login.
abbrev pub is_answered : Packet → Bool
is_answered (join_voice_channel_request _) = true
is_answered (leave_voice_channel_request _) = true
is_answered (chat_message_request _ _) = true
is_answered (ping_request _) = true
is_answered _ = false

abbrev pub IsNoLogin : Packet → Type 0
IsNoLogin (login_request _ _) = ⊥
IsNoLogin _ = Unit {0}

-- The bytes on the socket before and after a packet: one answer more, or the same.
abbrev pub Replied : Packet → List ℕ → List ℕ → Type 0
Replied p before after =
    ((is_answered p ≡ true) × (q : Packet) × Answers p q × (after ≡ before ++ frame q))
    ⊎ ((is_answered p ≡ false) × (after ≡ before))

module _ (t : Table User) where
  abbrev pub sent_after : {A : Type 0} → Run (World t) ServerError A → List ℕ
  sent_after (done a w) = w.sent
  sent_after (failed e w) = w.sent
  sent_after (panicked w) = w.sent

  -- Code that writes nothing to the socket.
  record Silent (m : Handler t (Unit {0})) : Type 0 where
    at : (w : World t) → sent_after (m w) ≡ w.sent

  Silent-broadcast : (b : Option BroadcastMessage) → Silent (broadcast t b)
  unfolding broadcast
  Silent-broadcast none = record { at = λ w. refl }
  Silent-broadcast (some m) = record { at = λ w. refl }

  Silent-event :
      (e : Event) (b : Option BroadcastMessage) → Silent (send_event t e >> broadcast t b)
  unfolding send_event ◌>>◌
  Silent-event e b = record {
    at = λ w. (Silent-broadcast b).at (record w { events = w.events ++ (e ∷ []) });
  }

  Silent-message : (i : ℕ) (m : List ℕ) → Silent (broadcast_message t i m)
  unfolding broadcast_message
  Silent-message i m = record { at = λ w. (Silent-broadcast _).at w }

  respond_sent :
      (q : Packet) (w : World t)
      → length (payload q) < max_payload
      → w.writable ≡ true
      → respond t q w ≡ done tt (record w { sent = w.sent ++ frame q })
  unfolding respond write_all
  respond_sent q w fits writes = rw (encode-fits q fits, respond) (rw (writes, write_all))

  answered :
      (address : ℕ) (change : User → User) (q : Packet) (k : User → Handler t (Unit {0}))
      (w : World t) (u : User)
      → t.get w.users address ≡ some u
      → w.writable ≡ true
      → length (payload q) < max_payload
      → ((v : User) → Silent (k v))
      → sent_after ((change_user t address change >>= λ v. respond t q >> k v) w)
        ≡ w.sent ++ frame q
  unfolding ◌>>=◌ ◌>>◌ change_user
  answered address change q k w u there writes fits silent =
      let w' : World t = record w { users = t.insert w.users address (change u) } in
      rw (there, ◌>>=◌, change_user, sent_after)
        (rw (respond_sent q w' fits writes, ◌>>◌, sent_after)
          ((silent (change u)).at (record w' { sent = w.sent ++ frame q })))

  quiet :
      (address : ℕ) (change : User → User) (k : User → Handler t (Unit {0})) (w : World t)
      (u : User)
      → t.get w.users address ≡ some u
      → ((v : User) → Silent (k v))
      → sent_after ((change_user t address change >>= k) w) ≡ w.sent
  unfolding ◌>>=◌ change_user
  quiet address change k w u there silent =
      rw (there, ◌>>=◌, change_user, sent_after)
        ((silent (change u)).at (record w { users = t.insert w.users address (change u) }))

  -- On a connection that takes writes, with a user behind it, each join, leave, chat and ping request
  -- is answered by exactly one packet: the response of the request's kind, with its number, that says
  -- it succeeded. Any other packet that is not a login, a voice authentication and a mute state
  -- included, leaves what is written to the socket as it was.
  pub handle_packet-Answers :
      (address : ℕ) (p : Packet) (w : World t) (u : User)
      → IsNoLogin p
      → t.get w.users address ≡ some u
      → w.writable ≡ true
      → Replied p w.sent (sent_after (handle_packet t address p w))
  unfolding handle_packet handle_join_voice_channel_request handle_leave_voice_channel_request
      handle_chat_message_request handle_ping_request handle_user_mute_state payload to_be_bytes
      pure
  handle_packet-Answers address (login_request r x) w u other there writes = elim other [ ]
  handle_packet-Answers address (join_voice_channel_request r) w u other there writes = inl (
    refl,
    join_voice_channel_response r true,
    (refl, refl),
    answered address _ _ _ w u there writes (omega arith) (λ v. Silent-event _ _),
  )
  handle_packet-Answers address (leave_voice_channel_request r) w u other there writes = inl (
    refl,
    leave_voice_channel_response r true,
    (refl, refl),
    answered address _ _ _ w u there writes (omega arith) (λ v. Silent-event _ _),
  )
  handle_packet-Answers address (chat_message_request r m) w u other there writes = inl (
    refl,
    chat_message_response r true,
    (refl, refl),
    answered address _ _ _ w u there writes (omega arith) (λ v. Silent-message _ _),
  )
  handle_packet-Answers address (ping_request r) w u other there writes = inl (
    refl,
    ping_response r,
    refl,
    ap sent_after (respond_sent (ping_response r) w (omega arith) writes),
  )
  handle_packet-Answers address (user_mute_state x y) w u other there writes =
      inr (refl, quiet address _ _ w u there (λ v. Silent-broadcast _))
  handle_packet-Answers address (login_response r x y z) w u other there writes = inr (refl, refl)
  handle_packet-Answers address (voice_auth_request r x) w u other there writes = inr (refl, refl)
  handle_packet-Answers address (voice_auth_response r x) w u other there writes = inr (refl, refl)
  handle_packet-Answers address (join_voice_channel_response r x) w u other there writes =
      inr (refl, refl)
  handle_packet-Answers address (leave_voice_channel_response r x) w u other there writes =
      inr (refl, refl)
  handle_packet-Answers address (chat_message_response r x) w u other there writes =
      inr (refl, refl)
  handle_packet-Answers address (ping_response r) w u other there writes = inr (refl, refl)
  handle_packet-Answers address (user_joined_server x) w u other there writes = inr (refl, refl)
  handle_packet-Answers address (user_joined_voice x) w u other there writes = inr (refl, refl)
  handle_packet-Answers address (user_left_voice x) w u other there writes = inr (refl, refl)
  handle_packet-Answers address (user_left_server x) w u other there writes = inr (refl, refl)
  handle_packet-Answers address (user_sent_message x y z) w u other there writes = inr (refl, refl)
  handle_packet-Answers address (voice_data x y z v) w u other there writes = inr (refl, refl)

  -- The users after `username` was told.
  abbrev pub renamed : ℕ → List ℕ → World t → User → t.Map
  renamed address name w u = t.insert w.users address (record u { username = some name })

  -- A login with a name that is not refused, on a connection that takes writes, while the
  -- participants fit a packet: the answer has the number of the request, the number and the token
  -- of the user, and lists the user with its new name.
  pub handle_login_request-answers :
      (address r : ℕ) (name : List ℕ) (w : World t) (u : User)
      → is_refused t name ≡ false
      → t.get w.users address ≡ some u
      → w.writable ≡ true
      → length (payload (login_response r u.id u.token (participants t (renamed address name w u))))
        < max_payload
      → (sent_after (handle_packet t address (login_request r name) w)
          ≡ w.sent
            ++ frame (login_response r u.id u.token (participants t (renamed address name w u))))
        × Member (info u name) (participants t (renamed address name w u))
  unfolding handle_packet handle_login_request accept_login respond_login ◌>>=◌ ◌>>◌ change_user
  handle_login_request-answers address r name w u taken there writes fits =
      let named : User = record u { username = some name } in
      let w' : World t = record w { users = renamed address name w u } in
      let q = login_response r u.id u.token (participants t (renamed address name w u)) in
      (
        rw (taken, handle_packet, handle_login_request, sent_after)
            (rw (there, accept_login, ◌>>=◌, change_user, sent_after)
              (rw (respond_sent q w' fits writes, ◌>>◌, respond_login, sent_after)
                ((Silent-broadcast _).at (record w' { sent = w.sent ++ frame q })))),
        (participants_iff t (renamed address name w u) (info u name)).1 (
          address,
          named,
          name,
          t.get-insert w.users address named address ∙ rw ((==_iff address address).1 refl),
          refl,
          refl,
        ),
      )
