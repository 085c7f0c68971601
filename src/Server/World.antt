-- ===== src/Server/World.antt =====
-- What a connection's task of the management server reads and changes
-- (server/src/management/handler.rs): the users that all tasks share, the two channels as logs of
-- what was sent, the bytes written to the task's own socket. Whether the socket takes a write, and
-- the clock, are the environment's.
pub mod Frames
use voiceapp.Base.{
  ℕ, Bool, Option, none, some, List, [], ◌∷◌, ◌++◌, if◌then◌else◌, Run, done, failed, panicked,
}
use voiceapp.Table.{Table}
use voiceapp.Protocol.Packet.{Packet, encode}
use voiceapp.Server.Error.{ServerError, io, user_not_found}
use voiceapp.Server.User.{User}
use voiceapp.Server.Event.{Event}
use voiceapp.Server.Broadcast.{BroadcastMessage}

module _ (t : Table User) where
  pub record World : Type 0 where
    pub users : t.Map
    pub broadcasts : List BroadcastMessage
    pub events : List Event
    pub sent : List ℕ
    pub writable : Bool
    pub clock : ℕ

  abbrev pub Handler : Type 0 → Type 0
  Handler A = World → Run World ServerError A

  -- `self.socket.write_all(bytes)` and the flush: a failure is an error of the handler.
  unfoldable pub write_all : List ℕ → Handler (Unit {0})
  write_all bytes w =
      if w.writable then done tt (record w { sent = w.sent ++ bytes }) else failed io w

  -- `self.socket.write_all(&response.encode())`
  unfoldable pub respond : Packet → Handler (Unit {0})
  respond response w = elim (encode response) [ none ↦ panicked w | some bytes ↦ write_all bytes w ]

  -- `let _ = self.events_channel.send(event)`
  unfoldable pub send_event : Event → Handler (Unit {0})
  send_event event w = done tt (record w { events = w.events ++ (event ∷ []) })

  -- `let _ = self.broadcast_channel.send(message)`
  unfoldable pub broadcast : Option BroadcastMessage → Handler (Unit {0})
  broadcast none w = panicked w
  broadcast (some message) w = done tt (record w { broadcasts = w.broadcasts ++ (message ∷ []) })

  -- `if let Some(mut user) = self.server_users.get_mut(&self.address)`, with the changes made to the
  -- user there; else the error `UserNotFound`.
  unfoldable pub change_user : ℕ → (User → User) → Handler User
  change_user address change w = elim (t.get w.users address) [
    | none ↦ failed (user_not_found address) w
    | some user ↦ done (change user) (record w { users = t.insert w.users address (change user) })
  ]
