-- ===== src/Mirror/Page.antt =====
-- The page of the room: what it shows of the users of the other connections, from the login on.
use voiceapp.Base.{
  ℕ, ◌+◌, ◌^◌, ◌<◌, ◌≡◌, refl, sym, subst, ◌∙◌, false, true, some, List, Run, done, failed,
  panicked, [], ◌∷◌, ◌++◌, length, map,
}
use voiceapp.Base.Runs.{◌>>=◌}
use voiceapp.Table.{Table}
use voiceapp.Protocol.Packet.{ParticipantInfo, Packet, login_request, login_response}
use voiceapp.Protocol.Layout.{payload, frame, max_payload}
use voiceapp.Server.User.{User}
use voiceapp.Server.Error.{ServerError}
use voiceapp.Server.World.Frames.{
  world_after, Frame, Within, Within-then, Within-respond, Within-broadcast,
}
use voiceapp.Server.Broadcast.{BroadcastMessage}
use voiceapp.Server.World.{World, change_user}
use voiceapp.Server.Handler.{
  participants, is_refused, handle_packet, handle_login_request, accept_login, respond_login,
}
use voiceapp.Server.Handler.Keeps.{users_after, handle_packet-Keeps, Keeps}
use voiceapp.Server.Handler.Answers.{sent_after, renamed, handle_login_request-answers}
use voiceapp.Server.Management.{ManagementServer}
use voiceapp.Server.Management.Reach.{Reachable, before}
use voiceapp.Server.Management.Agreement.{Distinct}
use voiceapp.Sdk.Events
use voiceapp.Sdk.Events.{listen_to_packets}
use voiceapp.Desktop.Message
use voiceapp.Desktop.Message.{String}
use voiceapp.Desktop.Room.{ChatMessage, RoomPage, updates}
use voiceapp.Desktop.Room.Roster.{updates-told}
use voiceapp.Mirror.{Carry, heard}
use voiceapp.Mirror.Everyone.{Mirrors}
use voiceapp.Mirror.Elsewhere.{Elsewhere, run-Hears}
use voiceapp.Mirror.Listing.{listed-Mirrors}

Distinct-Keeps :
    (t : Table User) (address : ℕ) (users users' : t.Map)
    → Keeps t address users users'
    → Distinct t users
    → Distinct t users'
Distinct-Keeps t address users users' kept distinct a b u v ea eb same =
    let (u0, ea0, same_u, _) = before t users users' a u (kept.same_identity a) ea in
    let (v0, eb0, same_v, _) = before t users users' b v (kept.same_identity b) eb in
    distinct a b u0 v0 ea0 eb0 (same_u ∙ same ∙ sym same_v)

-- The answer to an accepted login.
abbrev pub greeting : (t : Table User) (address r : ℕ) (name : List ℕ) → World t → User → Packet
greeting t address r name w u =
    login_response r u.id u.token (participants t (renamed t address name w u))

-- A part of a handler that leaves the users alone.
SameUsers : (t : Table User) → World t → World t → Type 0
SameUsers t w w' = w'.users ≡ w.users

Frame-SameUsers : (t : Table User) → Frame t (SameUsers t)
unfolding SameUsers
Frame-SameUsers t = record {
  same = λ w. refl;
  next = λ h k. k ∙ h;
  writes = λ w bytes. refl;
  tells = λ w bs. refl;
}

users_world :
    (t : Table User) (address : ℕ) (r : Run (World t) ServerError (Unit {0}))
    → users_after t address r ≡ (world_after t r).users
users_world t address (done a w) = refl
users_world t address (failed e w) = refl
users_world t address (panicked w) = refl

renamed_lem :
    (t : Table User) (address r : ℕ) (name : List ℕ) (w : World t) (u : User)
    → is_refused t name ≡ false
    → t.get w.users address ≡ some u
    → (world_after t (handle_packet t address (login_request r name) w)).users
      ≡ renamed t address name w u
unfolding handle_packet handle_login_request accept_login respond_login ◌>>=◌ change_user SameUsers
renamed_lem t address r name w u taken there =
    rw (taken, handle_packet, handle_login_request, world_after)
      (rw (there, accept_login, ◌>>=◌, change_user, world_after)
        ((Within-then t (Frame-SameUsers t) (answer address r (record u { username = some name }))
            (Within-broadcast t (Frame-SameUsers t) _)).at
          (record w { users = renamed t address name w u })))
  where
    answer : (address r : ℕ) (v : User) → Within t (Frame-SameUsers t) (respond_login t r v)
    answer address r v = record { at = λ x. (Within-respond t (Frame-SameUsers t) _).at x }

module _ (format_time : ℕ → String) (tp : Table ParticipantInfo) (tc : Table ChatMessage)
    (tv : Table ℕ) (t : Table User) where
  -- The page after the client has passed on these packets.
  abbrev pub told_page : List Packet → RoomPage format_time tp tc tv → RoomPage format_time tp tc tv
  told_page packets page =
      (updates format_time tp tc tv
        (map Message.server_event_received (listen_to_packets packets [])) page).1

  -- The page shows the users of the connections other than the observer's.
  abbrev pub Shows : ℕ → t.Map → RoomPage format_time tp tc tv → Type 0
  Shows observer users page = Mirrors t observer users (λ k. tp.get page.participants k)

  -- Broadcast messages that turn the page into one that shows the users.
  pub record Updates (observer : ℕ) (m s : ManagementServer t)
      (page : RoomPage format_time tp tc tv) : Type 0 where
    pub messages : List BroadcastMessage
    pub packets : List Packet
    pub sent : s.broadcasts ≡ m.broadcasts ++ messages
    pub carry : Carry observer messages packets
    pub shows : Shows observer s.users (told_page packets page)

  heard-page :
      (users : t.Map) (observer : ℕ) (packets : List Packet) (page : RoomPage format_time tp tc tv)
      → Mirrors t observer users (λ k. heard k packets (tp.get page.participants k))
      → Shows observer users (told_page packets page)
  heard-page users observer packets page h =
      let same : (λ k. tp.get (told_page packets page).participants k)
          ≡ (λ k. heard k packets (tp.get page.participants k)) =
        λ i k. updates-told format_time tp tc tv k (listen_to_packets packets []) page i in
      subst (Mirrors t observer users) (sym same) h

  -- From a state that the server comes to, let connections other than the observer's be accepted at
  -- free addresses, handle packets of their users, and end, in any order, and nothing else happen, all
  -- without an error and while fewer than 2^64 - 1 connections were accepted. A login must come outside
  -- of the voice channel and not muted, and a mute state must have the number of its own user. If the
  -- participants of a page were the named users of the other connections as the server had them, there
  -- are packets in the broadcast messages that the server put on the channel for the observer, in their
  -- order, and the participants of the page that hears of them are the named users of the other
  -- connections as the server then has them; the observer's own entry is left open.
  pub run-Updates :
      {n : ℕ} {m : ManagementServer t} {k : ℕ} {s : ManagementServer t} (observer : ℕ)
      (page : RoomPage format_time tp tc tv)
      → Reachable t n m
      → Elsewhere t observer n m k s
      → k + 1 < 2 ^ 64
      → Shows observer m.users page
      → Updates observer m s page
  run-Updates {s = s} observer page r e small shows =
      let h = run-Hears t observer (λ k. tp.get page.participants k) r e small shows in
      record {
        messages = h.messages;
        packets = h.packets;
        sent = h.sent;
        carry = h.carry;
        shows = heard-page s.users observer h.packets page h.mirrors;
      }

  -- A login with a name that is not refused, on a connection that takes writes and has a user, while no two users
  -- have the same number and the participants fit a packet: the server writes one login response, and
  -- the participants of the page that hears of it, whatever it showed before, are the named users of
  -- the other connections as the server has them after the login; the own entry is left open.
  pub login-Shows :
      (address r : ℕ) (name : List ℕ) (w : World t) (u : User)
      (page : RoomPage format_time tp tc tv)
      → is_refused t name ≡ false
      → t.get w.users address ≡ some u
      → w.writable ≡ true
      → Distinct t w.users
      → length (payload (greeting t address r name w u)) < max_payload
      → (let result = handle_packet t address (login_request r name) w in
          (sent_after t result ≡ w.sent ++ frame (greeting t address r name w u))
          × Shows address
              (world_after t result).users
              (told_page (greeting t address r name w u ∷ []) page))
  unfolding listen_to_packets Events.handle_packet
  login-Shows address r name w u page taken there writes distinct fits =
      let result = handle_packet t address (login_request r name) w in
      let users = (world_after t result).users in
      let is = renamed_lem t address r name w u taken there in
      let kept =
        subst (Keeps t address w.users) (users_world t address result)
          (handle_packet-Keeps t address (login_request r name) w) in
      let known = Distinct-Keeps t address w.users users kept distinct in
      (
        (handle_login_request-answers t address r name w u taken there writes fits).0,
        heard-page users address (greeting t address r name w u ∷ []) page (
            subst
              (λ x. Mirrors t address users (λ k.
                heard k (login_response r u.id u.token (participants t x) ∷ [])
                  (tp.get page.participants k)))
              is (listed-Mirrors t address users known)),
      )
