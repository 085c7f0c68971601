-- ===== src/Server/Handler/Keeps.antt =====
-- What no handler of a connection changes.
use voiceapp.Base.{
  ℕ, ◌≡◌, ◌≢◌, refl, ap, ◌∙◌, ◌==◌, ==_iff, Bool, true, false, Bool-cases, inl, inr, Option, none,
  some, Option-cases, List, ◌++◌, if◌then◌else◌, Run, done, failed, panicked, arith,
}
use voiceapp.Base.Runs.{◌>>=◌, ◌>>◌, pure}
use voiceapp.Table.{Table}
use voiceapp.Protocol.Packet.{
  Packet, encode, login_request, voice_auth_request, join_voice_channel_request,
  leave_voice_channel_request, chat_message_request, ping_request, login_response,
  voice_auth_response, join_voice_channel_response, leave_voice_channel_response,
  chat_message_response, ping_response, user_joined_server, user_joined_voice, user_left_voice,
  user_left_server, user_sent_message, user_mute_state, voice_data,
}
use voiceapp.Server.Error.{ServerError, io}
use voiceapp.Server.User.{User}
use voiceapp.Server.Event.{Event}
use voiceapp.Server.Broadcast.{BroadcastMessage}
use voiceapp.Server.World.{World, Handler, write_all, respond, send_event, broadcast, change_user}
use voiceapp.Server.Handler.{
  announce_left, accept_login, respond_login, broadcast_message, handle_login_request,
  handle_join_voice_channel_request, handle_leave_voice_channel_request,
  handle_chat_message_request, handle_ping_request, handle_user_mute_state, handle_packet,
  is_refused,
}

-- What identifies a user: the number and the token.
unfoldable pub identity : User → ℕ × ℕ
identity u = (u.id, u.token)

unfoldable pub identity_at : (t : Table User) → t.Map → ℕ → Option (ℕ × ℕ)
identity_at t users a = elim (t.get users a) [ none ↦ none | some u ↦ some (identity u) ]

ne-beq : (a b : ℕ) → a ≢ b → (a == b) ≡ false
ne-beq a b h = ground arith

module _ (t : Table User) (address : ℕ) where
  -- From the first users to the second, only the user of `address` may differ, and not in what
  -- identifies it.
  pub record Keeps (users users' : t.Map) : Type 0 where
    pub others : (a : ℕ) → a ≢ address → t.get users' a ≡ t.get users a
    pub same_identity : (a : ℕ) → identity_at t users' a ≡ identity_at t users a

  Keeps-refl : (users : t.Map) → Keeps users users
  Keeps-refl users = record { others = λ a h. refl; same_identity = λ a. refl }

  Keeps-trans : {u v w : t.Map} → Keeps u v → Keeps v w → Keeps u w
  Keeps-trans h k = record {
    others = λ a ne. k.others a ne ∙ h.others a ne;
    same_identity = λ a. k.same_identity a ∙ h.same_identity a;
  }

  abbrev pub users_after : {A : Type 0} → Run (World t) ServerError A → t.Map
  users_after (done a w) = w.users
  users_after (failed e w) = w.users
  users_after (panicked w) = w.users

  pub record Within {A : Type 0} (m : Handler t A) : Type 0 where
    pub at : (w : World t) → Keeps w.users (users_after (m w))

  Within-bind :
      {A B : Type 0} {m : Handler t A} {f : A → Handler t B}
      → Within m
      → ((a : A) → Within (f a))
      → Within (m >>= f)
  unfolding ◌>>=◌
  Within-bind {A} {B} {m} {f} h k = record { at = λ w. step w (m w) (h.at w) }
    where
      step :
          (w : World t) (r : Run (World t) ServerError A)
          → Keeps w.users (users_after r)
          → Keeps w.users (
              users_after (elim r [
                | done a w' ↦ f a w'
                | failed e w' ↦ failed e w'
                | panicked w' ↦ panicked w'
              ]))
      step w (done a w') h' = Keeps-trans h' ((k a).at w')
      step w (failed e w') h' = h'
      step w (panicked w') h' = h'

  Within-then :
      {A B : Type 0} {m : Handler t A} {k : Handler t B} → Within m → Within k → Within (m >> k)
  unfolding ◌>>◌
  Within-then {A} {B} {m} {k} h j = record { at = λ w. step w (m w) (h.at w) }
    where
      step :
          (w : World t) (r : Run (World t) ServerError A)
          → Keeps w.users (users_after r)
          → Keeps w.users (
              users_after (elim r [
                | done a w' ↦ k w'
                | failed e w' ↦ failed e w'
                | panicked w' ↦ panicked w'
              ]))
      step w (done a w') h' = Keeps-trans h' (j.at w')
      step w (failed e w') h' = h'
      step w (panicked w') h' = h'

  Within-pure : {A : Type 0} (a : A) → Within (pure a)
  unfolding pure
  Within-pure a = record { at = λ w. Keeps-refl w.users }

  Within-write_all : (bytes : List ℕ) → Within (write_all t bytes)
  unfolding write_all
  Within-write_all bytes = record { at = λ w. step w w.writable }
    where
      step :
          (w : World t) (b : Bool)
          → Keeps w.users (
              users_after {A = Unit {0}}
                (if b then done tt (record w { sent = w.sent ++ bytes }) else failed io w))
      step w true = Keeps-refl w.users
      step w false = Keeps-refl w.users

  Within-respond : (p : Packet) → Within (respond t p)
  unfolding respond
  Within-respond p = record {
    at = λ w. elim (Option-cases (encode p)) [
      | inl e ↦ rw (e, users_after) (Keeps-refl w.users)
      | inr (bytes, e) ↦ rw (e, users_after) ((Within-write_all bytes).at w)
    ];
  }

  Within-send_event : (e : Event) → Within (send_event t e)
  unfolding send_event
  Within-send_event e = record { at = λ w. Keeps-refl w.users }

  Within-broadcast : (m : Option BroadcastMessage) → Within (broadcast t m)
  unfolding broadcast
  Within-broadcast none = record { at = λ w. Keeps-refl w.users }
  Within-broadcast (some m) = record { at = λ w. Keeps-refl w.users }

  identity_of_insert :
      (users : t.Map) (old new : User) (a : ℕ)
      → t.get users address ≡ some old
      → identity new ≡ identity old
      → identity_at t (t.insert users address new) a ≡ identity_at t users a
  unfolding identity_at
  identity_of_insert users old new a e same = elim (Bool-cases (a == address)) [
    | inl here ↦
        let a_is : a ≡ address = (==_iff a address).0 here in
        rw (t.get-insert users address new a, identity_at, here, a_is, e) (ap some same)
    | inr there ↦ rw (t.get-insert users address new a, identity_at, there)
  ]

  Within-change_user :
      (change : User → User)
      → ((u : User) → identity (change u) ≡ identity u)
      → Within (change_user t address change)
  unfolding change_user
  Within-change_user change same = record {
    at = λ w. elim (Option-cases (t.get w.users address)) [
      | inl e ↦ rw (e, users_after) (Keeps-refl w.users)
      | inr (u, e) ↦
          rw (e, users_after)
            (record {
              others = λ a ne. t.get-insert w.users address (change u) a ∙ rw (ne-beq a address ne);
              same_identity = λ a. identity_of_insert w.users u (change u) a e (same u);
            })
    ];
  }

  Within-respond_login : (r : ℕ) (u : User) → Within (respond_login t r u)
  unfolding respond_login
  Within-respond_login r u = record { at = λ w. (Within-respond _).at w }

  Within-broadcast_message : (i : ℕ) (m : List ℕ) → Within (broadcast_message t i m)
  unfolding broadcast_message
  Within-broadcast_message i m = record { at = λ w. (Within-broadcast _).at w }

  Within-login : (r : ℕ) (name : List ℕ) → Within (handle_login_request t address r name)
  unfolding handle_login_request accept_login identity
  Within-login r name = elim (Bool-cases (is_refused t name)) [
    | inl refused ↦ rw (refused, handle_login_request) (Within-respond _)
    | inr taken ↦
        rw (taken, handle_login_request)
          (Within-bind (Within-change_user _ (λ u. refl))
            (λ u. Within-then (Within-respond_login r u) (Within-broadcast _)))
  ]

  Within-join : (r : ℕ) → Within (handle_join_voice_channel_request t address r)
  unfolding handle_join_voice_channel_request identity
  Within-join r =
      Within-bind (Within-change_user _ (λ u. refl)) (λ u.
        Within-then (Within-respond _) (Within-then (Within-send_event _) (Within-broadcast _)))

  Within-leave : (r : ℕ) → Within (handle_leave_voice_channel_request t address r)
  unfolding handle_leave_voice_channel_request identity
  Within-leave r =
      Within-bind (Within-change_user _ (λ u. refl)) (λ u.
        Within-then (Within-respond _) (Within-then (Within-send_event _) (Within-broadcast _)))

  Within-chat : (r : ℕ) (m : List ℕ) → Within (handle_chat_message_request t address r m)
  unfolding handle_chat_message_request identity
  Within-chat r m =
      Within-bind (Within-change_user _ (λ u. refl))
        (λ u. Within-then (Within-respond _) (Within-broadcast_message _ _))

  Within-mute : (i : ℕ) (b : Bool) → Within (handle_user_mute_state t address i b)
  unfolding handle_user_mute_state identity
  Within-mute i b = Within-bind (Within-change_user _ (λ u. refl)) (λ u. Within-broadcast _)

  -- Whatever packet a connection handles, and however that ends, the users of the other addresses
  -- stay as they were, no address gains or loses a user, and no user's number or token changes.
  pub handle_packet-Keeps :
      (p : Packet) (w : World t) → Keeps w.users (users_after (handle_packet t address p w))
  unfolding handle_packet handle_ping_request
  handle_packet-Keeps (login_request r name) w = (Within-login r name).at w
  handle_packet-Keeps (join_voice_channel_request r) w = (Within-join r).at w
  handle_packet-Keeps (leave_voice_channel_request r) w = (Within-leave r).at w
  handle_packet-Keeps (chat_message_request r m) w = (Within-chat r m).at w
  handle_packet-Keeps (ping_request r) w = (Within-respond (ping_response r)).at w
  handle_packet-Keeps (user_mute_state i b) w = (Within-mute i b).at w
  handle_packet-Keeps (voice_auth_request r x) w = (Within-pure tt).at w
  handle_packet-Keeps (login_response r x y z) w = (Within-pure tt).at w
  handle_packet-Keeps (voice_auth_response r x) w = (Within-pure tt).at w
  handle_packet-Keeps (join_voice_channel_response r x) w = (Within-pure tt).at w
  handle_packet-Keeps (leave_voice_channel_response r x) w = (Within-pure tt).at w
  handle_packet-Keeps (chat_message_response r x) w = (Within-pure tt).at w
  handle_packet-Keeps (ping_response r) w = (Within-pure tt).at w
  handle_packet-Keeps (user_joined_server x) w = (Within-pure tt).at w
  handle_packet-Keeps (user_joined_voice x) w = (Within-pure tt).at w
  handle_packet-Keeps (user_left_voice x) w = (Within-pure tt).at w
  handle_packet-Keeps (user_left_server x) w = (Within-pure tt).at w
  handle_packet-Keeps (user_sent_message x y z) w = (Within-pure tt).at w
  handle_packet-Keeps (voice_data x y z v) w = (Within-pure tt).at w

  -- The users that are left after the announcement of one that went.
  pub announce_left-Keeps :
      (u : User) (w : World t) → Keeps w.users (users_after (announce_left t u w))
  unfolding announce_left
  announce_left-Keeps u w =
      (Within-then (Within-broadcast _) (voice u.in_voice (Within-broadcast _))).at w
    where
      voice : (b : Bool) {m : Handler t (Unit {0})} → Within m → Within (if b then m else pure tt)
      voice true h = h
      voice false h = Within-pure tt
