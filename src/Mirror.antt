-- ===== src/Mirror.antt =====
-- The management server, the client library and the desktop program together: what the room of one
-- user shows of another, whose connection the server handles.
pub mod Runs
pub mod Hears
pub mod Steps
pub mod Packets
pub mod Everyone
pub mod Listing
pub mod Page
pub mod Elsewhere
use voiceapp.Base.{ℕ, ◌≡◌, ◌≢◌, Bool, true, false, Option, none, some, List, [], ◌∷◌, ◌++◌}
use voiceapp.Table.{Table}
use voiceapp.Protocol.Packet.{ParticipantInfo, Packet, encode, login_request, user_mute_state}
use voiceapp.Server.User.{User}
use voiceapp.Server.Broadcast.{BroadcastMessage, should_send_to}
use voiceapp.Server.World.{World}
use voiceapp.Server.Handler.Login.{info}
use voiceapp.Sdk.Events.{ClientEvent, listen_to_packets}
use voiceapp.Desktop.Room.Roster.{told_all}

-- What a room is to show of a user: nothing without a name.
unfoldable pub shown : User → Option ParticipantInfo
shown u = elim u.username [ none ↦ none | some name ↦ some (info u name) ]

-- The messages hold these packets, and the connection at the address is to get them.
abbrev pub Carry : ℕ → List BroadcastMessage → List Packet → Type 0
Carry observer [] [] = Unit {0}
Carry observer (m ∷ ms) (p ∷ ps) =
    (encode p ≡ some m.data_) × (should_send_to m observer ≡ true) × Carry observer ms ps
Carry observer [] (p ∷ ps) = ⊥
Carry observer (m ∷ ms) [] = ⊥

-- What the packets say of the user k to a room that shows `o` of it.
abbrev pub heard : ℕ → List Packet → Option ParticipantInfo → Option ParticipantInfo
heard k ps o = told_all k (listen_to_packets ps []) o

-- A login comes while the user is not in the voice channel and not muted, and a mute state has the
-- number of the user that sends it.
abbrev pub IsHonest : User → Packet → Type 0
IsHonest u (login_request _ _) = (u.in_voice ≡ false) × (u.is_muted ≡ false)
IsHonest u (user_mute_state user_id _) = user_id ≡ u.id
IsHonest u _ = Unit {0}

module _ (t : Table User) where
  -- A change of the user at an address, as a connection at another address is told of it.
  pub record Announces (address observer : ℕ) (u : User) (w w' : World t) : Type 0 where
    pub messages : List BroadcastMessage
    pub packets : List Packet
    pub user : User
    pub sent : w'.broadcasts ≡ w.broadcasts ++ messages
    pub carry : Carry observer messages packets
    pub there : t.get w'.users address ≡ some user
    pub own : heard u.id packets (shown u) ≡ shown user
    pub others : (k : ℕ) (o : Option ParticipantInfo) → k ≢ u.id → heard k packets o ≡ o

  -- The end of the user at an address, as the connections are told of it.
  pub record Departs (address observer : ℕ) (u : User) (w w' : World t) : Type 0 where
    pub messages : List BroadcastMessage
    pub packets : List Packet
    pub sent : w'.broadcasts ≡ w.broadcasts ++ messages
    pub carry : Carry observer messages packets
    pub gone : t.get w'.users address ≡ none
    pub own : heard u.id packets (shown u) ≡ none
    pub others : (k : ℕ) (o : Option ParticipantInfo) → k ≢ u.id → heard k packets o ≡ o
