-- ===== src/Protocol/Soundness/Payload.antt =====
-- What the `match` of `Packet::decode` (protocol/src/packet.rs) returns on a payload.
use voiceapp.Base.{
  ℕ, zero, suc, ◌+◌, ◌-◌, ◌≤◌, ◌≡◌, refl, Bool, List, [], arith, length, length-drop, All, All-drop,
}
use voiceapp.Protocol.Bytes.{IsByte}
use voiceapp.Protocol.PacketId.{PacketId}
use voiceapp.Protocol.Reader.{◌>>=◌, pure, read_u64, read_bool, read_string}
use voiceapp.Protocol.Reader.Yields.{
  Yields, Yields-pure, Yields-bind, Yields-last, Yields-remaining, Yields-u16, Yields-u32,
  Yields-u64, Yields-bool, Yields-string,
}
use voiceapp.Protocol.Packet.{
  Packet, packet_id, login_request, voice_auth_request, join_voice_channel_request,
  leave_voice_channel_request, chat_message_request, ping_request, login_response,
  voice_auth_response, join_voice_channel_response, leave_voice_channel_response,
  chat_message_response, ping_response, user_joined_server, user_joined_voice, user_left_voice,
  user_left_server, user_sent_message, user_mute_state, voice_data, read_participant,
  read_participants, read_remaining, read_payload,
}
use voiceapp.Protocol.Layout.{IsText, IsU64, IsParticipant, IsWire}
use voiceapp.Protocol.Sizes.{participant_size, participants_size, payload_size}

module _ (bs : List ℕ) (bytes : All IsByte bs) where
  Yields-IsParticipant :
      {s : ℕ} → Yields bs read_participant s (λ t p. (t ≡ s + participant_size p) × IsParticipant p)
  unfolding read_participant participant_size
  Yields-IsParticipant = Yields-bind bs _ _ (Yields-u64 bs bytes) λ t1 user_id (e1, hu).
      Yields-bind bs _ _ (Yields-string bs bytes) λ t2 username (e2, hb, hv).
        Yields-bind bs _ _ (Yields-bool bs bytes) λ t3 in_voice e3.
          Yields-last bs _ _ (Yields-bool bs bytes)
            λ t4 is_muted e4. (omega arith, record { user_id = hu; username = (hb, hv) })

  Yields-participants :
      (count : ℕ) {s : ℕ}
      → Yields bs
          (read_participants count)
          s
          (λ t ps. (t ≡ s + participants_size ps) × All IsParticipant ps)
  unfolding read_participants participants_size
  Yields-participants zero = Yields-pure bs [] (omega arith, tt)
  Yields-participants (suc count) = Yields-bind bs _ _ Yields-IsParticipant λ t p (e, hp).
      Yields-last bs _ _ (Yields-participants count) λ t' ps (e', hps). (omega arith, (hp, hps))

  -- What is known of a packet that was read up to position t.
  pub record Spans (i : PacketId) (t : ℕ) (p : Packet) : Type 0 where
    pub same_id : packet_id p ≡ i
    pub wire : IsWire p
    pub size : payload_size p ≤ t + (length bs - t)

  u64_alone :
      (i : PacketId) (make : ℕ → Packet)
      → ((v : ℕ) → packet_id (make v) ≡ i)
      → ((v : ℕ) → IsU64 v → IsWire (make v))
      → ((v : ℕ) → payload_size (make v) ≡ 8)
      → Yields bs (read_u64 >>= λ v. pure (make v)) 0 (Spans i)
  u64_alone i make same wire size =
      Yields-last bs _ make (Yields-u64 bs bytes)
        λ t v (e, h). record { same_id = same v; wire = wire v h; size = omega (arith, size v) }

  u64_and_bool :
      (i : PacketId) (make : ℕ → Bool → Packet)
      → ((v : ℕ) (b : Bool) → packet_id (make v b) ≡ i)
      → ((v : ℕ) (b : Bool) → IsU64 v → IsWire (make v b))
      → ((v : ℕ) (b : Bool) → payload_size (make v b) ≡ 9)
      → Yields bs (read_u64 >>= λ v. read_bool >>= λ b. pure (make v b)) 0 (Spans i)
  u64_and_bool i make same wire size = Yields-bind bs _ _ (Yields-u64 bs bytes) λ t v (e, h).
      Yields-last bs _ (make v) (Yields-bool bs bytes)
        λ t' b e'. record { same_id = same v b; wire = wire v b h; size = omega (arith, size v b) }

  u64_and_string :
      (i : PacketId) (make : ℕ → List ℕ → Packet)
      → ((v : ℕ) (s : List ℕ) → packet_id (make v s) ≡ i)
      → ((v : ℕ) (s : List ℕ) → IsU64 v → IsText s → IsWire (make v s))
      → ((v : ℕ) (s : List ℕ) → payload_size (make v s) ≡ 10 + length s)
      → Yields bs (read_u64 >>= λ v. read_string >>= λ s. pure (make v s)) 0 (Spans i)
  u64_and_string i make same wire size = Yields-bind bs _ _ (Yields-u64 bs bytes) λ t v (e, h).
      Yields-last bs _ (make v) (Yields-string bs bytes) λ t' s (e', hb, hv). record {
        same_id = same v s;
        wire = wire v s h (hb, hv);
        size = omega (arith, size v s);
      }

  pub Yields-payload : (i : PacketId) → Yields bs (read_payload i) 0 (Spans i)
  unfolding read_payload read_remaining packet_id payload_size
  Yields-payload PacketId.login_request =
      u64_and_string _ login_request (λ v s. refl) (λ v s h k. (h, k)) (λ v s. refl)
  Yields-payload PacketId.chat_message_request =
      u64_and_string _ chat_message_request (λ v s. refl) (λ v s h k. (h, k)) (λ v s. refl)
  Yields-payload PacketId.join_voice_channel_request =
      u64_alone _ join_voice_channel_request (λ v. refl) (λ v h. h) (λ v. refl)
  Yields-payload PacketId.leave_voice_channel_request =
      u64_alone _ leave_voice_channel_request (λ v. refl) (λ v h. h) (λ v. refl)
  Yields-payload PacketId.ping_request = u64_alone _ ping_request (λ v. refl) (λ v h. h) (λ v. refl)
  Yields-payload PacketId.ping_response =
      u64_alone _ ping_response (λ v. refl) (λ v h. h) (λ v. refl)
  Yields-payload PacketId.user_joined_voice =
      u64_alone _ user_joined_voice (λ v. refl) (λ v h. h) (λ v. refl)
  Yields-payload PacketId.user_left_voice =
      u64_alone _ user_left_voice (λ v. refl) (λ v h. h) (λ v. refl)
  Yields-payload PacketId.user_left_server =
      u64_alone _ user_left_server (λ v. refl) (λ v h. h) (λ v. refl)
  Yields-payload PacketId.voice_auth_response =
      u64_and_bool _ voice_auth_response (λ v b. refl) (λ v b h. h) (λ v b. refl)
  Yields-payload PacketId.join_voice_channel_response =
      u64_and_bool _ join_voice_channel_response (λ v b. refl) (λ v b h. h) (λ v b. refl)
  Yields-payload PacketId.leave_voice_channel_response =
      u64_and_bool _ leave_voice_channel_response (λ v b. refl) (λ v b h. h) (λ v b. refl)
  Yields-payload PacketId.chat_message_response =
      u64_and_bool _ chat_message_response (λ v b. refl) (λ v b h. h) (λ v b. refl)
  Yields-payload PacketId.user_mute_state =
      u64_and_bool _ user_mute_state (λ v b. refl) (λ v b h. h) (λ v b. refl)
  Yields-payload PacketId.voice_auth_request =
      Yields-bind bs _ _ (Yields-u64 bs bytes) λ t v (e, h).
        Yields-last bs _ (voice_auth_request v) (Yields-u64 bs bytes)
          λ t' w (e', k). record { same_id = refl; wire = (h, k); size = omega arith }
  Yields-payload PacketId.user_joined_server =
      Yields-last bs _ user_joined_server Yields-IsParticipant
        λ t p (e, h). record { same_id = refl; wire = h; size = omega arith }
  Yields-payload PacketId.user_sent_message = Yields-bind bs _ _ (Yields-u64 bs bytes) λ t v (e, h).
      Yields-bind bs _ _ (Yields-u64 bs bytes) λ t' w (e', k).
        Yields-last bs _ (user_sent_message v w) (Yields-string bs bytes) λ t'' s (e'', hb, hv).
          record { same_id = refl; wire = (h, k, (hb, hv)); size = omega arith }
  Yields-payload PacketId.login_response = Yields-bind bs _ _ (Yields-u64 bs bytes) λ t1 v (e1, hv).
      Yields-bind bs _ _ (Yields-u64 bs bytes) λ t2 i (e2, hi).
        Yields-bind bs _ _ (Yields-u64 bs bytes) λ t3 w (e3, hw).
          Yields-bind bs _ _ (Yields-u16 bs bytes) λ t4 count (e4, hc).
            Yields-last bs _ (login_response v i w) (Yields-participants count) λ t5 ps (e5, hp).
              record { same_id = refl; wire = (hv, hi, hw, hp); size = omega arith }
  Yields-payload PacketId.voice_data = Yields-bind bs _ _ (Yields-u64 bs bytes) λ t1 u (e1, hu).
      Yields-bind bs _ _ (Yields-u32 bs bytes) λ t2 sequence (e2, hs).
        Yields-bind bs _ _ (Yields-u32 bs bytes) λ t3 timestamp (e3, ht).
          Yields-last bs _ (voice_data u sequence timestamp) (Yields-remaining bs t3)
            λ t4 opus (e4, e5). record {
              same_id = refl;
              wire = (hu, hs, ht, rw e5 (All-drop IsByte t3 bs bytes));
              size = rw e5 (omega (arith, length-drop t3 bs));
            }

pub Spans-size :
    (bs : List ℕ) (bytes : All IsByte bs) (i : PacketId) (t : ℕ) (p : Packet)
    → Spans bs bytes i t p
    → t ≤ length bs
    → payload_size p ≤ length bs
Spans-size bs bytes i t p h k = omega (arith, h.size)
