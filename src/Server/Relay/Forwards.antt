-- ===== src/Server/Relay/Forwards.antt =====
-- Whom the relay sends a voice packet to, and what.
use voiceapp.Base.{
  some_inj, ℕ, ◌<◌, ◌≡◌, ◌≢◌, refl, ap, ◌∙◌, ◌↔◌, inl, inr, true, Option, none, some, List, [], ◌∷◌,
  ◌++◌, append_assoc, append-nil, arith, length, All, Member, filter_map, filter_map_iff, ok,
}
use voiceapp.Table.{Table}
use voiceapp.Protocol.Bytes.{IsByte, to_be_bytes}
use voiceapp.Protocol.Packet.{decode, voice_data}
use voiceapp.Protocol.Layout.{payload, frame, max_payload}
use voiceapp.Protocol.Encoding.{encode-fits, fits_of_encode}
use voiceapp.Protocol.Soundness.{decode_again}
use voiceapp.Server.Session.{VoiceSession}
use voiceapp.Server.Relay.{
  VoiceRelayServer, recipient, unwrap_all, send_to, send_to_all, forward_voice_packet,
  handle_decoded, handle_packet,
}

-- The datagrams that carry `bytes` to each of `addrs`.
unfoldable pub to_each : List ℕ → List ℕ → List (ℕ × List ℕ)
to_each bytes [] = []
to_each bytes (a ∷ addrs) = (a, bytes) ∷ to_each bytes addrs

recipient_iff :
    (user_id id : ℕ) (s : VoiceSession) (a : Option ℕ)
    → (recipient user_id (id, s) ≡ some a)
      ↔ ((s.in_voice ≡ true) × (id ≢ user_id) × (s.udp_address ≡ a))
unfolding recipient
recipient_iff user_id id s a = ground arith

unwrap_all_of_some :
    (os : List (Option ℕ))
    → ((o : Option ℕ) → Member o os → o ≢ none)
    → (addrs : List ℕ) × (unwrap_all os ≡ some addrs)
      × ((a : ℕ) → Member a addrs ↔ Member (some a) os)
unfolding unwrap_all
unwrap_all_of_some [] h = ([], refl, λ a. (λ x. x, λ x. x))
unwrap_all_of_some (none ∷ os) h = absurd (h none (inl refl) refl)
unwrap_all_of_some (some b ∷ os) h =
    let (addrs, e, iff) = unwrap_all_of_some os (λ o m. h o (inr m)) in
    (
      b ∷ addrs,
      rw e,
      λ a. (
        λ m. elim m [ inl same ↦ inl (ap some same) | inr later ↦ inr ((iff a).0 later) ],
        λ m. elim m [ inl same ↦ inl (some_inj same) | inr later ↦ inr ((iff a).1 later) ],
      ),
    )

module _ (ts : Table VoiceSession) (ta : Table ℕ) where
  pub send_to_all-datagrams :
      (bytes addrs : List ℕ) (r : VoiceRelayServer ts ta)
      → send_to_all ts ta bytes addrs r
        ≡ record r { datagrams = r.datagrams ++ to_each bytes addrs }
  unfolding send_to_all send_to to_each
  send_to_all-datagrams bytes [] r = rw (append-nil r.datagrams)
  send_to_all-datagrams bytes (a ∷ addrs) r =
      send_to_all-datagrams bytes addrs (send_to ts ta bytes a r)
      ∙ ap (λ (l : List (ℕ × List ℕ)). record r { datagrams = l })
          (append_assoc r.datagrams ((a, bytes) ∷ []) (to_each bytes addrs))

  -- A session that takes part in the voice channel beside the user `user_id`.
  pub record Hears (r : VoiceRelayServer ts ta) (user_id id : ℕ) (s : VoiceSession) : Type 0 where
    pub session : ts.get r.sessions id ≡ some s
    pub in_voice : s.in_voice ≡ true
    pub other : id ≢ user_id

  -- Everyone in the voice channel beside `user_id` has told an address.
  abbrev pub AllReachable : VoiceRelayServer ts ta → ℕ → Type 0
  AllReachable r user_id = (id : ℕ) (s : VoiceSession) → Hears r user_id id s → s.udp_address ≢ none

  -- `addrs` are the addresses of those who hear `user_id`, and no others.
  abbrev pub Audience : VoiceRelayServer ts ta → ℕ → List ℕ → Type 0
  Audience r user_id addrs =
      (a : ℕ)
      → Member a addrs
        ↔ ((id : ℕ) × (s : VoiceSession) × Hears r user_id id s × (s.udp_address ≡ some a))

  addressed_iff :
      (r : VoiceRelayServer ts ta) (user_id : ℕ) (o : Option ℕ)
      → Member o (filter_map (recipient user_id) (ts.entries r.sessions))
        ↔ ((id : ℕ) × (s : VoiceSession) × Hears r user_id id s × (s.udp_address ≡ o))
  addressed_iff r user_id o = (
    λ m.
        let ((id, s), listed, e) = (filter_map_iff (recipient user_id) _ o).0 m in
        let (talks, differs, address) = (recipient_iff user_id id s o).0 e in
        (
          id,
          s,
          record {
            session = (ts.entries_iff r.sessions id s).0 listed;
            in_voice = talks;
            other = differs;
          },
          address,
        ),
    λ h.
        let (id, s, hears, address) = h in
        (filter_map_iff (recipient user_id) _ o).1 (
          (id, s),
          (ts.entries_iff r.sessions id s).1 hears.session,
          (recipient_iff user_id id s o).1 (hears.in_voice, hears.other, address),
        ),
  )

  recipients_are :
      (r : VoiceRelayServer ts ta) (user_id : ℕ)
      → AllReachable r user_id
      → (addrs : List ℕ) × (unwrap_all (filter_map (recipient user_id) (ts.entries r.sessions))
          ≡ some addrs)
        × Audience r user_id addrs
  recipients_are r user_id reach =
      let (addrs, e, iff) =
        unwrap_all_of_some (filter_map (recipient user_id) (ts.entries r.sessions)) (λ o m.
          let (id, s, hears, address) = (addressed_iff r user_id o).0 m in
          λ isnone. reach id s hears (address ∙ isnone)) in
      (
        addrs,
        e,
        λ a. (
          λ m. (addressed_iff r user_id (some a)).0 ((iff a).0 m),
          λ h. (iff a).1 ((addressed_iff r user_id (some a)).1 h),
        ),
      )

  -- A datagram of bytes that decodes to voice data, from an address that belongs to user `id`, goes, with the number in it replaced
  -- by `id` and its sequence number, time and sound as they were, to the addresses of the other
  -- users in the voice channel and to no one else; the relay does not panic and changes nothing
  -- else. The condition is that each of those users has told an address.
  pub handle_packet-voice :
      (r : VoiceRelayServer ts ta) (src_addr claimed sequence timestamp n id : ℕ)
      (sound buf : List ℕ)
      → All IsByte buf
      → decode buf ≡ ok (voice_data claimed sequence timestamp sound, n)
      → ta.get r.ids_by_addresses src_addr ≡ some id
      → AllReachable r id
      → (addrs : List ℕ) × (handle_packet ts ta src_addr buf r
          ≡ some (record r {
            datagrams =
                r.datagrams ++ to_each (frame (voice_data id sequence timestamp sound)) addrs;
          }))
        × Audience r id addrs
  unfolding handle_packet handle_decoded forward_voice_packet payload to_be_bytes
  handle_packet-voice r src_addr claimed sequence timestamp n id sound buf bytes e known reach =
      let (addrs, unwraps, audience) = recipients_are r id reach in
      let fits : length (payload (voice_data id sequence timestamp sound)) < max_payload =
        fits_of_encode (voice_data claimed sequence timestamp sound)
          (decode_again buf _ n bytes e).0 in
      (
        addrs,
        rw (e, handle_packet)
            (rw (known, handle_decoded)
              (rw (encode-fits _ fits, forward_voice_packet)
                (rw unwraps (ap some (send_to_all-datagrams _ addrs r))))),
        audience,
      )
