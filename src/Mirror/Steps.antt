-- ===== src/Mirror/Steps.antt =====
-- Each packet that a connection handles, as the rooms of the others are told of it.
use voiceapp.Base.{
  ℕ, ◌≡◌, ◌≢◌, refl, sym, ap, subst, ◌∙◌, inl, inr, not, Bool, true, false, Bool-cases, Option,
  none, some, List, [], ◌∷◌, ◌++◌, append-nil,
}
use voiceapp.Table.{Table}
use voiceapp.Protocol.Packet.{
  ParticipantInfo, Packet, encode, login_response, join_voice_channel_response,
  leave_voice_channel_response, chat_message_response, user_joined_server, user_joined_voice,
  user_left_voice, user_sent_message, user_mute_state,
}
use voiceapp.Server.User.{User}
use voiceapp.Server.Event.{voice_joined, voice_left}
use voiceapp.Server.Broadcast.{BroadcastMessage, excluding, for_all, should_send_to}
use voiceapp.Server.World.{World, respond, send_event, broadcast}
use voiceapp.Server.Handler.{
  accept_login, respond_login, broadcast_message, handle_login_request, is_refused,
  handle_join_voice_channel_request, handle_leave_voice_channel_request,
  handle_chat_message_request, handle_user_mute_state,
}
use voiceapp.Sdk.Events
use voiceapp.Sdk.Events.{listen_to_packets}
use voiceapp.Mirror.Hears.{
  ==_ne, join_own, leave_own, mute_own, join_others, leave_others, mute_others, login_own,
  login_others,
}
use voiceapp.Mirror.{shown, heard, Announces}
use voiceapp.Mirror.Runs.{
  Ended, Ended-then, Same, Put, Changed, Ended-respond, Ended-send_event, Ended-excluding,
  Ended-for_all, Ended-changed, Ended-map,
}

not_excluded :
    {a o : ℕ} (bytes : List ℕ)
    → a ≢ o
    → should_send_to (record { exclude = some a; data_ = bytes }) o ≡ true
unfolding should_send_to
not_excluded bytes h = ap not (==_ne h)

pub to_everyone :
    (o : ℕ) (bytes : List ℕ) → should_send_to (record { exclude = none; data_ = bytes }) o ≡ true
unfolding should_send_to
to_everyone o bytes = refl

module _ (t : Table User) (address observer : ℕ) (apart : address ≢ observer) where
  -- Nothing is announced.
  pub silent_lem :
      (u : User) (w w' : World t)
      → t.get w.users address ≡ some u
      → Same t w w'
      → Announces t address observer u w w'
  unfolding listen_to_packets
  silent_lem u w w' e h = record {
    messages = [];
    packets = [];
    user = u;
    sent = h.broadcasts ∙ sym (append-nil w.broadcasts);
    carry = tt;
    there = ap (λ m. t.get m address) h.users ∙ e;
    own = refl;
    others = λ k o differs. refl;
  }

  -- One packet is announced, which says what has become of the user.
  single_lem :
      (u u' : User) (w w' : World t) (m : BroadcastMessage) (p : Packet)
      → encode p ≡ some m.data_
      → should_send_to m observer ≡ true
      → w'.broadcasts ≡ w.broadcasts ++ (m ∷ [])
      → t.get w'.users address ≡ some u'
      → heard u.id (p ∷ []) (shown u) ≡ shown u'
      → ((k : ℕ) (o : Option ParticipantInfo) → k ≢ u.id → heard k (p ∷ []) o ≡ o)
      → Announces t address observer u w w'
  single_lem u u' w w' m p e sends sent there own others = record {
    messages = m ∷ [];
    packets = p ∷ [];
    user = u';
    sent = sent;
    carry = (e, sends, tt);
    there = there;
    own = own;
    others = others;
  }

  -- A changed user, and then a message about it for the others.
  announced :
      (u u' : User) (p : Packet) (w v w' : World t)
      → Changed t address u' w v
      → heard u.id (p ∷ []) (shown u) ≡ shown u'
      → ((k : ℕ) (o : Option ParticipantInfo) → k ≢ u.id → heard k (p ∷ []) o ≡ o)
      → (bytes : List ℕ) × (encode p ≡ some bytes)
        × Put t (record { exclude = some address; data_ = bytes }) v w'
      → Announces t address observer u w w'
  announced u u' p w v w' c own others (bytes, e, put) =
      single_lem u u' w w' _ p e (not_excluded bytes apart)
        (put.broadcasts
          ∙ ap (λ bs. bs ++ (record { exclude = some address; data_ = bytes } ∷ [])) c.broadcasts)
        (ap (λ m. t.get m address) put.users ∙ c.user) own others

  -- What stays changed over a part that leaves users and broadcasts.
  still :
      (u' : User) (w v v2 : World t)
      → Changed t address u' w v
      → Same t v v2
      → Changed t address u' w v2
  still u' w v v2 c s = record {
    user = ap (λ m. t.get m address) s.users ∙ c.user;
    broadcasts = s.broadcasts ∙ c.broadcasts;
  }

  tell :
      (u u' : User) (p : Packet) (w v : World t)
      → Changed t address u' w v
      → heard u.id (p ∷ []) (shown u) ≡ shown u'
      → ((k : ℕ) (o : Option ParticipantInfo) → k ≢ u.id → heard k (p ∷ []) o ≡ o)
      → Ended t (broadcast t (excluding address p) v) (λ _ w'. Announces t address observer u w w')
  tell u u' p w v c own others =
      Ended-map t (broadcast t (excluding address p) v) _ _ (Ended-excluding t address p v)
        (λ _ w' h. announced u u' p w v w' c own others h)

  pub Ended-join :
      (r : ℕ) (w : World t) (u : User)
      → t.get w.users address ≡ some u
      → Ended t
          (handle_join_voice_channel_request t address r w)
          (λ _ w'. Announces t address observer u w w')
  unfolding handle_join_voice_channel_request
  Ended-join r w u e = Ended-changed t address _ _ w _ e λ v c.
      Ended-then t (respond t (join_voice_channel_response r true)) _ v _ _ (Ended-respond t _ v)
        λ _ x s.
          Ended-then t (send_event t (voice_joined u.id)) _ x _ _ (Ended-send_event t _ x) λ _ y s'.
            tell u (record u { in_voice = true; is_muted = false }) (user_joined_voice u.id) w y
              (still _ w x y (still _ w v x c s) s') (join_own u) (join_others u.id)

  pub Ended-leave :
      (r : ℕ) (w : World t) (u : User)
      → t.get w.users address ≡ some u
      → Ended t
          (handle_leave_voice_channel_request t address r w)
          (λ _ w'. Announces t address observer u w w')
  unfolding handle_leave_voice_channel_request
  Ended-leave r w u e = Ended-changed t address _ _ w _ e λ v c.
      Ended-then t (respond t (leave_voice_channel_response r true)) _ v _ _ (Ended-respond t _ v)
        λ _ x s.
          Ended-then t (send_event t (voice_left u.id)) _ x _ _ (Ended-send_event t _ x) λ _ y s'.
            tell u (record u { in_voice = false; is_muted = false }) (user_left_voice u.id) w y
              (still _ w x y (still _ w v x c s) s') (leave_own u) (leave_others u.id)

  pub Ended-mute :
      (i : ℕ) (b : Bool) (w : World t) (u : User)
      → i ≡ u.id
      → t.get w.users address ≡ some u
      → Ended t
          (handle_user_mute_state t address i b w)
          (λ _ w'. Announces t address observer u w w')
  unfolding handle_user_mute_state
  Ended-mute i b w u same e = Ended-changed t address _ _ w _ e λ v c.
      subst
        (λ j.
          Ended t (broadcast t (excluding address (user_mute_state j b)) v)
            (λ _ w'. Announces t address observer u w w'))
        (sym same)
        (tell u (record u { is_muted = b }) (user_mute_state u.id b) w v c (mute_own u b)
          (λ k o. mute_others u.id k b o))

  -- The user is put back as it was, and a text does not change what is shown.
  pub Ended-chat :
      (r : ℕ) (m : List ℕ) (w : World t) (u : User)
      → t.get w.users address ≡ some u
      → Ended t
          (handle_chat_message_request t address r m w)
          (λ _ w'. Announces t address observer u w w')
  unfolding handle_chat_message_request broadcast_message listen_to_packets Events.handle_packet
  Ended-chat r m w u e = Ended-changed t address _ _ w _ e λ v c.
      Ended-then t (respond t (chat_message_response r true)) _ v _ _ (Ended-respond t _ v) λ _ x s.
        Ended-map t (broadcast t (for_all (user_sent_message u.id x.clock m)) x) _ _
          (Ended-for_all t (user_sent_message u.id x.clock m) x)
          (λ _ w' (bytes, sent, put).
            single_lem u u w w' _ (user_sent_message u.id x.clock m) sent
              (to_everyone observer bytes)
              (put.broadcasts
                ∙ ap (λ bs. bs ++ (record { exclude = none; data_ = bytes } ∷ []))
                    (still u w v x c s).broadcasts)
              (ap (λ us. t.get us address) put.users ∙ (still u w v x c s).user) refl
              (λ k o h. refl))

  pub Ended-login :
      (r : ℕ) (name : List ℕ) (w : World t) (u : User)
      → u.in_voice ≡ false
      → u.is_muted ≡ false
      → t.get w.users address ≡ some u
      → Ended t
          (handle_login_request t address r name w)
          (λ _ w'. Announces t address observer u w w')
  unfolding handle_login_request accept_login respond_login
  Ended-login r name w u out loud e = elim (Bool-cases (is_refused t name)) [
    | inl refused ↦
        rw (refused, handle_login_request)
          (Ended-map t (respond t (login_response r 0 0 []) w) _ _ (Ended-respond t _ w)
            (λ _ w' s. silent_lem u w w' e s))
    | inr taken ↦
        rw (taken, handle_login_request)
          (Ended-changed t address _ _ w _ e λ v c.
            Ended-then t (respond_login t r (record u { username = some name })) _ v _ _
              (Ended-respond t _ v)
              λ _ x s.
                tell u (record u { username = some name }) (user_joined_server _) w x
                  (still _ w v x c s) (login_own u name out loud) (λ k o. login_others _ k o))
  ]
