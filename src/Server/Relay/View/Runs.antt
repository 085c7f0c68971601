-- ===== src/Server/Relay/View/Runs.antt =====
-- Whole runs of the voice relay (server/src/voice/server.rs): datagrams leave its view of the users.
use voiceapp.Base.{
  some_inj, none-some, subst, filter_map, ℕ, ◌≡◌, refl, sym, ◌∙◌, ◌==◌, ==_iff, inl, inr, Bool,
  true, false, Bool-cases, none, some, Option-cases, List, [], ◌∷◌, arith, Member, Result-cases,
}
use voiceapp.Table.{Table}
use voiceapp.Protocol.Packet.{
  Packet, encode, decode, login_request, voice_auth_request, join_voice_channel_request,
  leave_voice_channel_request, chat_message_request, ping_request, login_response,
  voice_auth_response, join_voice_channel_response, leave_voice_channel_response,
  chat_message_response, ping_response, user_joined_server, user_joined_voice, user_left_voice,
  user_left_server, user_sent_message, user_mute_state, voice_data,
}
use voiceapp.Server.Event.{Event, user_connected, voice_joined, voice_left, user_disconnected}
use voiceapp.Server.Session.{VoiceSession}
use voiceapp.Server.Relay.Forwards.{send_to_all-datagrams}
use voiceapp.Server.Relay.{
  VoiceRelayServer, find, unwrap_all, recipient, new, handle_event, send_to, forward_voice_packet,
  authenticate, handle_decoded, handle_packet, Turn, datagram, event, turn, run,
}
use voiceapp.Server.Relay.View.{
  View, told, directory, session_view, view, events_of, session_view-insert, view-handle_event,
}

Member-of_find :
    {A : Type 0} (test : A → Bool) (xs : List A) {x : A} → find test xs ≡ some x → Member x xs
unfolding find
Member-of_find test [] e = absurd (cc)
Member-of_find test (y ∷ ys) e = elim (Bool-cases (test y)) [
  | inl hit ↦ inl (ground (arith, hit))
  | inr miss ↦ inr (Member-of_find test ys (rw miss at e))
]

module _ (ts : Table VoiceSession) (ta : Table ℕ) where
  view-insert_same :
      (m : ts.Map) (id : ℕ) (old s : VoiceSession) (j : ℕ)
      → ts.get m id ≡ some old
      → s.token ≡ old.token
      → s.in_voice ≡ old.in_voice
      → session_view (ts.get (ts.insert m id s) j) ≡ session_view (ts.get m j)
  view-insert_same m id old s j e tokens voices =
      session_view-insert ts ta m id s j ∙ elim (Bool-cases (j == id)) [
        | inl here ↦ let j_is : j ≡ id = (==_iff j id).0 here in rw (here, j_is, e, tokens, voices)
        | inr there ↦ rw there
      ]

  view-authenticate :
      (src id : ℕ) (s : VoiceSession) (request_id voice_token : ℕ) (r r' : VoiceRelayServer ts ta)
      (j : ℕ)
      → ts.get r.sessions id ≡ some s
      → authenticate ts ta src id s request_id voice_token r ≡ some r'
      → view ts ta r' j ≡ view ts ta r j
  unfolding authenticate send_to view
  view-authenticate src id s q token r r' j known e = elim (Bool-cases (s.token == token)) [
    | inl valid ↦ elim (Option-cases (encode (voice_auth_response q true))) [
      | inl panic ↦ absurd (none-some (sym (rw (valid, authenticate) (rw panic)) ∙ e))
      | inr (bytes, sends) ↦
          let result : VoiceRelayServer ts ta = record r {
            sessions = ts.insert r.sessions id (record s { udp_address = some src });
            ids_by_addresses = ta.insert r.ids_by_addresses src id;
          } in
          let becomes : authenticate ts ta src id s q token r
              ≡ some (send_to ts ta bytes src result) =
            rw (valid, authenticate) (rw (sends, valid)) in
          subst (λ x. view ts ta x j ≡ view ts ta r j) (some_inj (sym becomes ∙ e))
            (view-insert_same r.sessions id s _ j known refl refl)
    ]
    | inr invalid ↦ elim (Option-cases (encode (voice_auth_response q false))) [
      | inl panic ↦ absurd (none-some (sym (rw (invalid, authenticate) (rw panic)) ∙ e))
      | inr (bytes, sends) ↦
          let becomes : authenticate ts ta src id s q token r ≡ some (send_to ts ta bytes src r) =
            rw (invalid, authenticate) (rw (sends, invalid)) in
          subst (λ x. view ts ta x j ≡ view ts ta r j) (some_inj (sym becomes ∙ e)) refl
    ]
  ]

  view-forward :
      (id q time : ℕ) (sound : List ℕ) (r r' : VoiceRelayServer ts ta) (j : ℕ)
      → forward_voice_packet ts ta id q time sound r ≡ some r'
      → view ts ta r' j ≡ view ts ta r j
  unfolding forward_voice_packet view
  view-forward id q time sound r r' j e =
      elim (Option-cases (encode (voice_data id q time sound))) [
        | inl panic ↦ absurd (none-some (sym (rw (panic, forward_voice_packet)) ∙ e))
        | inr (bytes, encodes) ↦
            elim (Option-cases (unwrap_all (filter_map (recipient id) (ts.entries r.sessions)))) [
              | inl panic ↦
                  absurd (none-some (sym (rw (encodes, forward_voice_packet) (rw panic)) ∙ e))
              | inr (addrs, unwraps) ↦
                  let r_is = some_inj (sym (rw (encodes, forward_voice_packet) (rw unwraps)) ∙ e) in
                  subst (λ x. view ts ta x j ≡ view ts ta r j)
                    (sym (send_to_all-datagrams ts ta bytes addrs r) ∙ r_is) refl
            ]
      ]

  view-handle_decoded :
      (src : ℕ) (p : Packet) (r r' : VoiceRelayServer ts ta) (j : ℕ)
      → handle_decoded ts ta src p r ≡ some r'
      → view ts ta r' j ≡ view ts ta r j
  unfolding handle_decoded
  view-handle_decoded src (voice_auth_request q token) r r' j e =
      elim (Option-cases
        (find (λ (e : ℕ × VoiceSession). e.1.token == token) (ts.entries r.sessions))) [
          | inl unknown ↦
              subst (λ x. view ts ta x j ≡ view ts ta r j)
                (some_inj (sym (rw (unknown, handle_decoded)) ∙ e)) refl
          | inr ((id, s), found) ↦
              view-authenticate src id s q token r r' j
                ((ts.entries_iff r.sessions id s).0
                  (Member-of_find _ (ts.entries r.sessions) found))
                (sym (rw (found, handle_decoded)) ∙ e)
        ]
  view-handle_decoded src (voice_data i q time sound) r r' j e =
      elim (Option-cases (ta.get r.ids_by_addresses src)) [
        | inl unknown ↦
            subst (λ x. view ts ta x j ≡ view ts ta r j)
              (some_inj (sym (rw (unknown, handle_decoded)) ∙ e)) refl
        | inr (id, known) ↦
            view-forward id q time sound r r' j (sym (rw (known, handle_decoded)) ∙ e)
      ]
  view-handle_decoded src (login_request a b) r r' j e =
      subst (λ x. view ts ta x j ≡ view ts ta r j) (some_inj e) refl
  view-handle_decoded src (join_voice_channel_request a) r r' j e =
      subst (λ x. view ts ta x j ≡ view ts ta r j) (some_inj e) refl
  view-handle_decoded src (leave_voice_channel_request a) r r' j e =
      subst (λ x. view ts ta x j ≡ view ts ta r j) (some_inj e) refl
  view-handle_decoded src (chat_message_request a b) r r' j e =
      subst (λ x. view ts ta x j ≡ view ts ta r j) (some_inj e) refl
  view-handle_decoded src (ping_request a) r r' j e =
      subst (λ x. view ts ta x j ≡ view ts ta r j) (some_inj e) refl
  view-handle_decoded src (login_response a b c d) r r' j e =
      subst (λ x. view ts ta x j ≡ view ts ta r j) (some_inj e) refl
  view-handle_decoded src (voice_auth_response a b) r r' j e =
      subst (λ x. view ts ta x j ≡ view ts ta r j) (some_inj e) refl
  view-handle_decoded src (join_voice_channel_response a b) r r' j e =
      subst (λ x. view ts ta x j ≡ view ts ta r j) (some_inj e) refl
  view-handle_decoded src (leave_voice_channel_response a b) r r' j e =
      subst (λ x. view ts ta x j ≡ view ts ta r j) (some_inj e) refl
  view-handle_decoded src (chat_message_response a b) r r' j e =
      subst (λ x. view ts ta x j ≡ view ts ta r j) (some_inj e) refl
  view-handle_decoded src (ping_response a) r r' j e =
      subst (λ x. view ts ta x j ≡ view ts ta r j) (some_inj e) refl
  view-handle_decoded src (user_joined_server a) r r' j e =
      subst (λ x. view ts ta x j ≡ view ts ta r j) (some_inj e) refl
  view-handle_decoded src (user_joined_voice a) r r' j e =
      subst (λ x. view ts ta x j ≡ view ts ta r j) (some_inj e) refl
  view-handle_decoded src (user_left_voice a) r r' j e =
      subst (λ x. view ts ta x j ≡ view ts ta r j) (some_inj e) refl
  view-handle_decoded src (user_left_server a) r r' j e =
      subst (λ x. view ts ta x j ≡ view ts ta r j) (some_inj e) refl
  view-handle_decoded src (user_sent_message a b c) r r' j e =
      subst (λ x. view ts ta x j ≡ view ts ta r j) (some_inj e) refl
  view-handle_decoded src (user_mute_state a b) r r' j e =
      subst (λ x. view ts ta x j ≡ view ts ta r j) (some_inj e) refl

  view-handle_packet :
      (src : ℕ) (bytes : List ℕ) (r r' : VoiceRelayServer ts ta) (j : ℕ)
      → handle_packet ts ta src bytes r ≡ some r'
      → view ts ta r' j ≡ view ts ta r j
  unfolding handle_packet
  view-handle_packet src bytes r r' j e = elim (Result-cases (decode bytes)) [
    | inl ((p, n), h) ↦ view-handle_decoded src p r r' j (sym (rw (h, handle_packet)) ∙ e)
    | inr (x, h) ↦
        subst (λ x. view ts ta x j ≡ view ts ta r j) (some_inj (sym (rw (h, handle_packet)) ∙ e))
          refl
  ]

  told_same : (e : Event) (v w : View) → ((j : ℕ) → v j ≡ w j) → (j : ℕ) → told e v j ≡ told e w j
  told_same (user_connected id token) v w h j = rw (h j)
  told_same (voice_joined id) v w h j = rw (h j)
  told_same (voice_left id) v w h j = rw (h j)
  told_same (user_disconnected id) v w h j = rw (h j)

  run-view_from :
      (xs : List (Turn ts ta)) (r r' : VoiceRelayServer ts ta) (v : View)
      → ((j : ℕ) → view ts ta r j ≡ v j)
      → run ts ta xs r ≡ some r'
      → (j : ℕ) → view ts ta r' j ≡ directory (events_of ts ta xs) v j
  unfolding run turn
  run-view_from [] r r' v h e j = subst (λ x. view ts ta x j ≡ v j) (some_inj e) (h j)
  run-view_from (event e ∷ xs) r r' v h runs j =
      run-view_from xs (handle_event ts ta e r) r' (told e v)
        (λ i. view-handle_event ts ta e r i ∙ told_same e (view ts ta r) v h i) runs j
  run-view_from (datagram src bytes ∷ xs) r r' v h runs j =
      elim (Option-cases (handle_packet ts ta src bytes r)) [
        | inl panic ↦ absurd (none-some (sym (rw (panic, run, turn)) ∙ runs))
        | inr (r1, handles) ↦
            run-view_from xs r1 r' v (λ i. view-handle_packet src bytes r r1 i handles ∙ h i)
              (sym (rw (handles, run, turn)) ∙ runs) j
      ]

  -- However datagrams come between the events, the relay, as long as it has not panicked, has a
  -- session for exactly the users that the events tell of, with their tokens, and with the voice
  -- state of the last event about each.
  pub run-view :
      (xs : List (Turn ts ta)) (r : VoiceRelayServer ts ta)
      → run ts ta xs (new ts ta) ≡ some r
      → (j : ℕ) → view ts ta r j ≡ directory (events_of ts ta xs) (λ i. none) j
  unfolding new view
  run-view xs r e j = run-view_from xs (new ts ta) r (λ i. none) (λ i. rw (ts.get-empty i)) e j
