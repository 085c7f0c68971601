-- ===== src/Server/Management.antt =====
-- server/src/management/server.rs: the server that accepts the connections. A connection's handling
-- of one packet, of a broadcast, or of its end is one step here; steps of the connections come in any order.
pub mod Reach
pub mod Agreement
use voiceapp.Base.{ℕ, ◌+◌, ◌%◌, ◌^◌, Bool, false, none, List, [], ◌∷◌, ◌++◌, final, Run}
use voiceapp.Table.{Table}
use voiceapp.Protocol.Packet.{Packet}
use voiceapp.Server.Error.{ServerError}
use voiceapp.Server.User.{User}
use voiceapp.Server.Event.{Event, user_connected, user_disconnected}
use voiceapp.Server.Broadcast.{BroadcastMessage}
use voiceapp.Server.World.{World}
use voiceapp.Server.Handler.{handle_packet, handle_disconnect}

module _ (t : Table User) where
  pub record ManagementServer : Type 0 where
    pub users : t.Map
    pub next_user_id : ℕ
    pub events : List Event
    pub broadcasts : List BroadcastMessage

  unfoldable pub new : ManagementServer
  new = record { users = t.empty; next_user_id = 1; events = []; broadcasts = [] }

  -- `fetch_add` on the `AtomicU64` gives the value before, and wraps around. The token is random.
  unfoldable pub register_new_user :
      (address token : ℕ) → ManagementServer → User × ManagementServer
  register_new_user address token m =
      let user : User = record {
        id = m.next_user_id;
        username = none;
        in_voice = false;
        is_muted = false;
        token = token;
      } in
      (
        user,
        record m {
          next_user_id = (m.next_user_id + 1) % 2 ^ 64;
          users = t.insert m.users address user;
        },
      )

  unfoldable pub send_event : Event → ManagementServer → ManagementServer
  send_event event m = record m { events = m.events ++ (event ∷ []) }

  -- A connection that is accepted, up to its handler's start.
  unfoldable pub accept : (address token : ℕ) → ManagementServer → ManagementServer
  accept address token m =
      let (user, m') = register_new_user address token m in
      send_event (user_connected user.id user.token) m'

  -- What a task sees of the server, with the bytes it has sent and what the environment gives.
  unfoldable pub seen : List ℕ → Bool → ℕ → ManagementServer → World t
  seen sent writable clock m = record {
    users = m.users;
    broadcasts = m.broadcasts;
    events = m.events;
    sent = sent;
    writable = writable;
    clock = clock;
  }

  unfoldable pub after : ManagementServer → World t → ManagementServer
  after m w = record m { users = w.users; broadcasts = w.broadcasts; events = w.events }

  unfoldable pub packet :
      (address : ℕ) → Packet → List ℕ → Bool → ℕ → ManagementServer → ManagementServer
  packet address p sent writable clock m =
      after m (final (handle_packet t address p (seen sent writable clock m)))

  -- The end of a connection, and the event that its task sends then.
  unfoldable pub disconnect :
      (address id : ℕ) → List ℕ → Bool → ℕ → ManagementServer → ManagementServer
  disconnect address id sent writable clock m =
      send_event (user_disconnected id)
        (after m (final (handle_disconnect t address (seen sent writable clock m))))
