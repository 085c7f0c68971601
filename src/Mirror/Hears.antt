-- ===== src/Mirror/Hears.antt =====
-- What a packet about a user says to the rooms, of the user and of the others.
use voiceapp.Base.{
  ℕ, ◌≡◌, ◌≢◌, refl, inl, inr, ◌==◌, Bool, true, false, Option, none, some, Option-cases, List, [],
  ◌∷◌, if◌then◌else◌, arith,
}
use voiceapp.Protocol.Packet.{
  ParticipantInfo, user_joined_server, user_joined_voice, user_left_voice, user_left_server,
  user_mute_state,
}
use voiceapp.Server.User.{User}
use voiceapp.Sdk.Events
use voiceapp.Sdk.Events.{listen_to_packets}
use voiceapp.Mirror.{shown, heard}

pub ==_refl : (a : ℕ) → (a == a) ≡ true
==_refl a = ground arith

pub ==_ne : {a b : ℕ} → a ≢ b → (a == b) ≡ false
==_ne h = ground (arith, h)

-- What the packet about a change says of the user, and of no other.
pub join_own :
    (u : User)
    → heard u.id (user_joined_voice u.id ∷ []) (shown u)
      ≡ shown (record u { in_voice = true; is_muted = false })
unfolding shown listen_to_packets Events.handle_packet
join_own u = elim (Option-cases u.username) [
  | inl e ↦ rw (e, shown, ==_refl u.id) refl
  | inr (name, e) ↦ rw (e, shown, ==_refl u.id) refl
]

pub leave_own :
    (u : User)
    → heard u.id (user_left_voice u.id ∷ []) (shown u)
      ≡ shown (record u { in_voice = false; is_muted = false })
unfolding shown listen_to_packets Events.handle_packet
leave_own u = elim (Option-cases u.username) [
  | inl e ↦ rw (e, shown, ==_refl u.id) refl
  | inr (name, e) ↦ rw (e, shown, ==_refl u.id) refl
]

pub mute_own :
    (u : User) (b : Bool)
    → heard u.id (user_mute_state u.id b ∷ []) (shown u) ≡ shown (record u { is_muted = b })
unfolding shown listen_to_packets Events.handle_packet
mute_own u b = elim (Option-cases u.username) [
  | inl e ↦ rw (e, shown, ==_refl u.id) refl
  | inr (name, e) ↦ rw (e, shown, ==_refl u.id) refl
]

pub join_others :
    (i k : ℕ) (o : Option ParticipantInfo) → k ≢ i → heard k (user_joined_voice i ∷ []) o ≡ o
unfolding listen_to_packets Events.handle_packet
join_others i k o h = rw (==_ne h) refl

pub leave_others :
    (i k : ℕ) (o : Option ParticipantInfo) → k ≢ i → heard k (user_left_voice i ∷ []) o ≡ o
unfolding listen_to_packets Events.handle_packet
leave_others i k o h = rw (==_ne h) refl

pub mute_others :
    (i k : ℕ) (b : Bool) (o : Option ParticipantInfo)
    → k ≢ i
    → heard k (user_mute_state i b ∷ []) o ≡ o
unfolding listen_to_packets Events.handle_packet
mute_others i k b o h = rw (==_ne h) refl

abbrev pub entry : ℕ → List ℕ → ParticipantInfo
entry i name = record { user_id = i; username = name; in_voice = false; is_muted = false }

pub login_own :
    (u : User) (name : List ℕ)
    → u.in_voice ≡ false
    → u.is_muted ≡ false
    → heard u.id (user_joined_server (entry u.id name) ∷ []) (shown u)
      ≡ shown (record u { username = some name })
unfolding shown listen_to_packets Events.handle_packet
login_own u name out loud = rw (==_refl u.id, out, loud) refl

pub login_others :
    (i : ParticipantInfo) (k : ℕ) (o : Option ParticipantInfo)
    → k ≢ i.user_id
    → heard k (user_joined_server i ∷ []) o ≡ o
unfolding listen_to_packets Events.handle_packet
login_others i k o h = rw (==_ne h) refl

-- A user that is gone, whether or not it was in the voice channel.
pub gone_own :
    (u : User) (b : Bool)
    → heard u.id (user_left_server u.id ∷ (if b then (user_left_voice u.id ∷ []) else [])) (shown u)
      ≡ none
unfolding listen_to_packets Events.handle_packet
gone_own u true = rw (==_refl u.id) refl
gone_own u false = rw (==_refl u.id) refl

pub gone_others :
    (i k : ℕ) (b : Bool) (o : Option ParticipantInfo)
    → k ≢ i
    → heard k (user_left_server i ∷ (if b then (user_left_voice i ∷ []) else [])) o ≡ o
unfolding listen_to_packets Events.handle_packet
gone_others i k true o h = rw (==_ne h) refl
gone_others i k false o h = rw (==_ne h) refl
