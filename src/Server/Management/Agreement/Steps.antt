-- ===== src/Server/Management/Agreement/Steps.antt =====
-- Runs in which the connections take what is written to them, with the relay beside them.
use voiceapp.Base.{
  some-none, ℕ, suc, ◌+◌, ◌^◌, ◌<◌, ◌≡◌, refl, sym, ap, ◌∙◌, subst, Bool, true, false, Option, some,
  List, [], ◌∷◌, ◌++◌, arith, Run, done, failed, panicked, final, length,
}
use voiceapp.Base.Runs.{◌>>=◌, ◌>>◌}
use voiceapp.Table.{Table}
use voiceapp.Protocol.Bytes.{to_be_bytes}
use voiceapp.Protocol.Layout.{payload, frame, max_payload}
use voiceapp.Protocol.Encoding.{encode-fits}
use voiceapp.Protocol.Packet.{
  Packet, join_voice_channel_request, join_voice_channel_response, leave_voice_channel_request,
  leave_voice_channel_response, login_request, voice_auth_request, chat_message_request,
  ping_request, login_response, voice_auth_response, chat_message_response, ping_response,
  user_joined_server, user_joined_voice, user_left_voice, user_left_server, user_sent_message,
  user_mute_state, voice_data,
}
use voiceapp.Server.Error.{ServerError}
use voiceapp.Server.User.{User}
use voiceapp.Server.Event.{Event, voice_joined, voice_left, user_disconnected}
use voiceapp.Server.Broadcast.{BroadcastMessage}
use voiceapp.Server.Session.{VoiceSession}
use voiceapp.Server.World.{World, Handler, respond, write_all, broadcast, change_user}
use voiceapp.Server.World
use voiceapp.Server.World.Frames.{world_after, Within-broadcast}
use voiceapp.Server.Handler.{
  handle_packet, handle_disconnect, announce_left, handle_join_voice_channel_request,
  handle_leave_voice_channel_request,
}
use voiceapp.Server.Handler.Quiet.{
  Quiet, Quiet_frame, IsVoiceChange, handle_packet-Quiet, Quiet-announce_left,
}
use voiceapp.Server.Relay
use voiceapp.Server.Relay.{VoiceRelayServer, Turn}
use voiceapp.Server.Relay.View.{view, events_of}
use voiceapp.Server.Relay.View.Runs.{run-view}
use voiceapp.Server.Management.{
  ManagementServer, new, register_new_user, accept, send_event, seen, after, packet, disconnect,
}
use voiceapp.Server.Management.Reach
use voiceapp.Server.Management.Reach.{Reachable, IsNumbered, Reachable-IsNumbered}
use voiceapp.Server.Management.Agreement.{
  Told, Distinct, known, Told-of_profiles, Told-voice, Told-removed, Told-connected,
}

module _ (t : Table User) where
  final-world :
      {A : Type 0} (r : Run (World t) ServerError A) → final {W = World t} r ≡ world_after t r
  final-world (done a w) = refl
  final-world (failed e w) = refl
  final-world (panicked w) = refl

  respond-done :
      (q : Packet) (w : World t)
      → length (payload q) < max_payload
      → w.writable ≡ true
      → respond t q w ≡ done tt (record w { sent = w.sent ++ frame q })
  unfolding respond write_all
  respond-done q w fits writes = rw (encode-fits q fits, respond) (rw (writes, write_all))

  -- The handlers of joining and leaving: the change of the user, the answer, the event, the news.
  voice_change :
      (address : ℕ) (change : User → User) (q : Packet) (e : User → Event)
      (b : User → Option BroadcastMessage) (w : World t) (u : User)
      → t.get w.users address ≡ some u
      → w.writable ≡ true
      → length (payload q) < max_payload
      → Quiet t
          (record w {
            users = t.insert w.users address (change u);
            sent = w.sent ++ frame q;
            events = w.events ++ (e (change u) ∷ []);
          })
          (world_after t (
            (change_user t address change >>= λ v.
            respond t q >> (World.send_event t (e v) >> broadcast t (b v)))
              w))
  unfolding ◌>>=◌ ◌>>◌ change_user World.send_event
  voice_change address change q e b w u there writes fits =
      let w1 : World t = record w { users = t.insert w.users address (change u) } in
      rw (there, ◌>>=◌, change_user, world_after)
        (rw (respond-done q w1 fits writes, ◌>>◌, world_after)
          ((Within-broadcast t (Quiet_frame t) (b (change u))).at
            (record w1 { sent = w.sent ++ frame q; events = w.events ++ (e (change u) ∷ []) })))

  -- As `Reachable`, but every connection takes what is written to it, the packets come from
  -- connections with a user, and the connection that ends is the one of the user at its address.
  pub data Healthy : ℕ → ManagementServer t → Type 0 where
    starts : Healthy 0 (new t)
    accepts :
        {n : ℕ} {m : ManagementServer t}
        → Healthy n m
        → (address token : ℕ) → Healthy (suc n) (accept t address token m)
    handles :
        {n : ℕ} {m : ManagementServer t}
        → Healthy n m
        → (address : ℕ) (u : User) → t.get m.users address ≡ some u
        → (p : Packet) (sent : List ℕ) (clock : ℕ)
        → Healthy n (packet t address p sent true clock m)
    leaves :
        {n : ℕ} {m : ManagementServer t}
        → Healthy n m
        → (address : ℕ) (u : User) → t.get m.users address ≡ some u
        → (sent : List ℕ) (writable : Bool) (clock : ℕ)
        → Healthy n (disconnect t address u.id sent writable clock m)

  Reachable-of_Healthy : {n : ℕ} {m : ManagementServer t} → Healthy n m → Reachable t n m
  Reachable-of_Healthy starts = Reach.starts
  Reachable-of_Healthy (accepts h address token) =
      Reach.accepts (Reachable-of_Healthy h) address token
  Reachable-of_Healthy (handles h address u e p sent clock) =
      Reach.handles (Reachable-of_Healthy h) address p sent true clock
  Reachable-of_Healthy (leaves h address u e sent writable clock) =
      Reach.leaves (Reachable-of_Healthy h) address u.id sent writable clock

  Told-of_Quiet :
      (w w' : World t) → Quiet t w w' → Told t w.users w.events → Told t w'.users w'.events
  Told-of_Quiet w w' q h =
      subst (λ es. Told t w'.users es) (sym q.events)
        (Told-of_profiles t w.users w'.users w.events q.profiles h)

  Told-quiet :
      (m : ManagementServer t) (address : ℕ) (p : Packet) (sent : List ℕ) (clock : ℕ)
      → (IsVoiceChange t p → ⊥)
      → Told t m.users m.events
      → (let w = world_after t (handle_packet t address p (seen t sent true clock m)) in
          Told t w.users w.events)
  unfolding seen
  Told-quiet m address p sent clock no_change h =
      let w = seen t sent true clock m in
      Told-of_Quiet w _ ((handle_packet-Quiet t address p no_change).at w) h

  Told-packet :
      (m : ManagementServer t) (address : ℕ) (u : User) (p : Packet) (sent : List ℕ) (clock : ℕ)
      → Distinct t m.users
      → t.get m.users address ≡ some u
      → Told t m.users m.events
      → (let w = world_after t (handle_packet t address p (seen t sent true clock m)) in
          Told t w.users w.events)
  unfolding handle_packet seen handle_join_voice_channel_request handle_leave_voice_channel_request
      payload to_be_bytes
  Told-packet m address u (join_voice_channel_request r) sent clock distinct there h =
      let w = seen t sent true clock m in
      Told-of_Quiet _ _
        (voice_change address _ (join_voice_channel_response r true) _ _ w u there refl
          (omega arith))
        (Told-voice t m.users m.events address u (record u { in_voice = true; is_muted = false })
          (voice_joined u.id) distinct there refl refl (λ v j. refl) h)
  Told-packet m address u (leave_voice_channel_request r) sent clock distinct there h =
      let w = seen t sent true clock m in
      Told-of_Quiet _ _
        (voice_change address _ (leave_voice_channel_response r true) _ _ w u there refl
          (omega arith))
        (Told-voice t m.users m.events address u (record u { in_voice = false; is_muted = false })
          (voice_left u.id) distinct there refl refl (λ v j. refl) h)
  Told-packet m address u (login_request r x) sent clock distinct there h =
      Told-quiet m address (login_request r x) sent clock (λ no_. no_) h
  Told-packet m address u (voice_auth_request r x) sent clock distinct there h =
      Told-quiet m address (voice_auth_request r x) sent clock (λ no_. no_) h
  Told-packet m address u (chat_message_request r x) sent clock distinct there h =
      Told-quiet m address (chat_message_request r x) sent clock (λ no_. no_) h
  Told-packet m address u (ping_request r) sent clock distinct there h =
      Told-quiet m address (ping_request r) sent clock (λ no_. no_) h
  Told-packet m address u (login_response r x y z) sent clock distinct there h =
      Told-quiet m address (login_response r x y z) sent clock (λ no_. no_) h
  Told-packet m address u (voice_auth_response r x) sent clock distinct there h =
      Told-quiet m address (voice_auth_response r x) sent clock (λ no_. no_) h
  Told-packet m address u (join_voice_channel_response r x) sent clock distinct there h =
      Told-quiet m address (join_voice_channel_response r x) sent clock (λ no_. no_) h
  Told-packet m address u (leave_voice_channel_response r x) sent clock distinct there h =
      Told-quiet m address (leave_voice_channel_response r x) sent clock (λ no_. no_) h
  Told-packet m address u (chat_message_response r x) sent clock distinct there h =
      Told-quiet m address (chat_message_response r x) sent clock (λ no_. no_) h
  Told-packet m address u (ping_response r) sent clock distinct there h =
      Told-quiet m address (ping_response r) sent clock (λ no_. no_) h
  Told-packet m address u (user_joined_server x) sent clock distinct there h =
      Told-quiet m address (user_joined_server x) sent clock (λ no_. no_) h
  Told-packet m address u (user_joined_voice x) sent clock distinct there h =
      Told-quiet m address (user_joined_voice x) sent clock (λ no_. no_) h
  Told-packet m address u (user_left_voice x) sent clock distinct there h =
      Told-quiet m address (user_left_voice x) sent clock (λ no_. no_) h
  Told-packet m address u (user_left_server x) sent clock distinct there h =
      Told-quiet m address (user_left_server x) sent clock (λ no_. no_) h
  Told-packet m address u (user_sent_message x y z) sent clock distinct there h =
      Told-quiet m address (user_sent_message x y z) sent clock (λ no_. no_) h
  Told-packet m address u (user_mute_state x y) sent clock distinct there h =
      Told-quiet m address (user_mute_state x y) sent clock (λ no_. no_) h
  Told-packet m address u (voice_data x y z v) sent clock distinct there h =
      Told-quiet m address (voice_data x y z v) sent clock (λ no_. no_) h

  Told-disconnect :
      (m : ManagementServer t) (address : ℕ) (u : User) (sent : List ℕ) (writable : Bool)
      (clock : ℕ)
      → Distinct t m.users
      → t.get m.users address ≡ some u
      → Told t m.users m.events
      → (let m' = disconnect t address u.id sent writable clock m in Told t m'.users m'.events)
  unfolding disconnect send_event after handle_disconnect seen
  Told-disconnect m address u sent writable clock distinct there h =
      let w : World t = record (seen t sent writable clock m) {
        users = t.remove m.users address;
      } in
      let q = (Quiet-announce_left t u).at w in
      let left : Told t (world_after t (announce_left t u w)).users
          ((world_after t (announce_left t u w)).events ++ (user_disconnected u.id ∷ [])) =
        subst
          (λ es.
            Told t (world_after t (announce_left t u w)).users
              (es ++ (user_disconnected u.id ∷ [])))
          (sym q.events)
          (Told-of_profiles t (t.remove m.users address) _
            (m.events ++ (user_disconnected u.id ∷ [])) q.profiles
            (Told-removed t m.users m.events address u distinct there h)) in
      rw (there, handle_disconnect, Told)
        (subst (λ (x : World t). Told t x.users (x.events ++ (user_disconnected u.id ∷ [])))
          (sym (final-world (announce_left t u w))) left)

  -- In a healthy run the events tell the token and the voice state of every user.
  Healthy-Told :
      {n : ℕ} {m : ManagementServer t} → Healthy n m → n + 1 < 2 ^ 64 → Told t m.users m.events
  unfolding new accept register_new_user send_event packet after
  Healthy-Told starts room = λ a u e. absurd (some-none (sym e ∙ t.get-empty a))
  Healthy-Told (accepts {n} {m} h address token) room =
      let numbered = Reachable-IsNumbered t (Reachable-of_Healthy h) (omega (arith, room)) in
      Told-connected t m.users m.events address (register_new_user t address token m).0 refl
        (λ a v e. λ same. absurd (omega (arith, numbered.given a v e, same)))
        (Healthy-Told h (omega (arith, room)))
  Healthy-Told (handles {n} {m} h address u e p sent clock) room =
      let numbered = Reachable-IsNumbered t (Reachable-of_Healthy h) room in
      subst (λ (w : World t). Told t w.users w.events)
        (sym (final-world (handle_packet t address p (seen t sent true clock m))))
        (Told-packet m address u p sent clock numbered.distinct e (Healthy-Told h room))
  Healthy-Told (leaves {n} {m} h address u e sent writable clock) room =
      let numbered = Reachable-IsNumbered t (Reachable-of_Healthy h) room in
      Told-disconnect m address u sent writable clock numbered.distinct e (Healthy-Told h room)

  -- In a healthy run in which fewer than 2^64 - 1 connections were accepted, and however datagrams came to
  -- the relay between the events: once the relay has taken all events, and if it has not panicked,
  -- it has for every user of the management server a session with the user's token and voice state.
  pub sessions_agree :
      (ts : Table VoiceSession) (ta : Table ℕ) (n : ℕ) (m : ManagementServer t)
      (xs : List (Turn ts ta)) (r : VoiceRelayServer ts ta) (a : ℕ) (u : User)
      → Healthy n m
      → n + 1 < 2 ^ 64
      → events_of ts ta xs ≡ m.events
      → Relay.run ts ta xs (Relay.new ts ta) ≡ some r
      → t.get m.users a ≡ some u
      → view ts ta r u.id ≡ some (u.token, u.in_voice)
  sessions_agree ts ta n m xs r a u h room told_all runs there =
      run-view ts ta xs r runs u.id
      ∙ ap (λ es. known es u.id) told_all
      ∙ Healthy-Told h room a u there
