-- ===== src/Mirror/Elsewhere.antt =====
-- What the other connections do while a room listens, in any order, and what the room then shows.
use voiceapp.Base.{
  ℕ, suc, ◌+◌, ◌^◌, ◌<◌, ◌≡◌, ◌≢◌, refl, sym, ap, subst, ◌∙◌, Bool, none, some, Option, List, [],
  ◌++◌, append-nil, append_assoc, arith, done,
}
use voiceapp.Table.{Table}
use voiceapp.Protocol.Packet.{ParticipantInfo, Packet}
use voiceapp.Server.User.{User}
use voiceapp.Server.Broadcast.{BroadcastMessage}
use voiceapp.Server.World.{World}
use voiceapp.Server.Handler.{handle_packet, handle_disconnect, announce_left}
use voiceapp.Server.Handler.Keeps.{users_after, handle_packet-Keeps, announce_left-Keeps, Keeps}
use voiceapp.Server.Management.{
  ManagementServer, register_new_user, accept, send_event, seen, after, packet, disconnect,
}
use voiceapp.Server.Management.Reach
use voiceapp.Server.Management.Reach.{Reachable, Reachable-IsNumbered}
use voiceapp.Mirror.Hears.{==_ne}
use voiceapp.Sdk.Events.{listen_to_packets}
use voiceapp.Mirror.{Announces, Departs, IsHonest, Carry, heard}
use voiceapp.Mirror.Runs.{Ended}
use voiceapp.Mirror.Packets.{handle_packet-Announces, handle_disconnect-Departs}
use voiceapp.Mirror.Everyone.{
  Mirrors, heard-append, Carry-append, announced-Mirrors, departed-Mirrors, arrived-Mirrors,
}

module _ (t : Table User) (observer : ℕ) where
  -- From one state of the server, with so many connections accepted, to a later one: connections
  -- other than the observer's are accepted at free addresses, handle honest packets of their users, and
  -- end, all without an error.
  pub data Elsewhere (n : ℕ) (m : ManagementServer t) : ℕ → ManagementServer t → Type 0 where
    stays : Elsewhere n m n m
    accepts :
        {k : ℕ} {s : ManagementServer t}
        → Elsewhere n m k s
        → (address token : ℕ) → address ≢ observer
        → t.get s.users address ≡ none
        → Elsewhere n m (suc k) (accept t address token s)
    handles :
        {k : ℕ} {s : ManagementServer t}
        → Elsewhere n m k s
        → (address : ℕ) (u : User) (p : Packet) (sent : List ℕ) (writable : Bool) (clock : ℕ)
          (w : World t)
        → address ≢ observer
        → t.get s.users address ≡ some u
        → IsHonest u p
        → handle_packet t address p (seen t sent writable clock s) ≡ done tt w
        → Elsewhere n m k (packet t address p sent writable clock s)
    leaves :
        {k : ℕ} {s : ManagementServer t}
        → Elsewhere n m k s
        → (address : ℕ) (u : User) (sent : List ℕ) (writable : Bool) (clock : ℕ) (w : World t)
        → address ≢ observer
        → t.get s.users address ≡ some u
        → handle_disconnect t address (seen t sent writable clock s) ≡ done tt w
        → Elsewhere n m k (disconnect t address u.id sent writable clock s)

  -- The broadcasts of the server from one list to another hold packets, each of them sent to the observer, that
  -- turn what the room shows into a mirror of the users.
  pub record Hears (before after_ : List BroadcastMessage) (users : t.Map)
      (room : ℕ → Option ParticipantInfo) : Type 0 where
    pub messages : List BroadcastMessage
    pub packets : List Packet
    pub sent : after_ ≡ before ++ messages
    pub carry : Carry observer messages packets
    pub mirrors : Mirrors t observer users (λ k. heard k packets (room k))

  further :
      (b0 b1 b2 : List BroadcastMessage) (users users' : t.Map) (room : ℕ → Option ParticipantInfo)
      (h : Hears b0 b1 users room)
      → Hears b1 b2 users' (λ k. heard k h.packets (room k))
      → Hears b0 b2 users' room
  further b0 b1 b2 users users' room h g = record {
    messages = h.messages ++ g.messages;
    packets = h.packets ++ g.packets;
    sent = g.sent ∙ ap (λ bs. bs ++ g.messages) h.sent ∙ append_assoc b0 h.messages g.messages;
    carry = Carry-append observer h.messages g.messages h.packets g.packets h.carry g.carry;
    mirrors =
        let same : (λ k. heard k (h.packets ++ g.packets) (room k))
            ≡ (λ k. heard k g.packets (heard k h.packets (room k))) =
          λ i k. heard-append k h.packets g.packets (room k) i in
        subst (Mirrors t observer users') (sym same) g.mirrors;
  }

  Reachable-Elsewhere :
      {n : ℕ} {m : ManagementServer t} {k : ℕ} {s : ManagementServer t}
      → Reachable t n m
      → Elsewhere n m k s
      → Reachable t k s
  Reachable-Elsewhere r stays = r
  Reachable-Elsewhere r (accepts e address token apart vacant) =
      Reach.accepts (Reachable-Elsewhere r e) address token
  Reachable-Elsewhere r (handles e address u p sent writable clock w apart there honest ends) =
      Reach.handles (Reachable-Elsewhere r e) address p sent writable clock
  Reachable-Elsewhere r (leaves e address u sent writable clock w apart there ends) =
      Reach.leaves (Reachable-Elsewhere r e) address u.id sent writable clock

  Hears-packet :
      (k : ℕ) (s : ManagementServer t) (address : ℕ) (u : User) (p : Packet) (sent : List ℕ)
      (writable : Bool) (clock : ℕ) (w : World t) (room : ℕ → Option ParticipantInfo)
      → Reachable t k s
      → k + 1 < 2 ^ 64
      → address ≢ observer
      → t.get s.users address ≡ some u
      → IsHonest u p
      → handle_packet t address p (seen t sent writable clock s) ≡ done tt w
      → Mirrors t observer s.users room
      → Hears s.broadcasts w.broadcasts w.users room
  unfolding seen
  Hears-packet k s address u p sent writable clock w room r small apart there honest ends m =
      let start = seen t sent writable clock s in
      let h =
        subst (λ x. Ended t x (λ _ w'. Announces t address observer u start w')) ends
          (handle_packet-Announces t address observer apart p start u there honest) in
      let kept =
        subst (λ x. Keeps t address s.users (users_after t address x)) ends
          (handle_packet-Keeps t address p start) in
      record {
        messages = h.messages;
        packets = h.packets;
        sent = h.sent;
        carry = h.carry;
        mirrors =
            announced-Mirrors t observer address u start w room h apart there
              (Reachable-IsNumbered t r small).distinct kept m;
      }

  Hears-disconnect :
      (k : ℕ) (s : ManagementServer t) (address : ℕ) (u : User) (sent : List ℕ) (writable : Bool)
      (clock : ℕ) (w : World t) (room : ℕ → Option ParticipantInfo)
      → Reachable t k s
      → k + 1 < 2 ^ 64
      → address ≢ observer
      → t.get s.users address ≡ some u
      → handle_disconnect t address (seen t sent writable clock s) ≡ done tt w
      → Mirrors t observer s.users room
      → Hears s.broadcasts w.broadcasts w.users room
  unfolding seen handle_disconnect
  Hears-disconnect k s address u sent writable clock w room r small apart there ends m =
      let start = seen t sent writable clock s in
      let h =
        subst (λ x. Ended t x (λ _ w'. Departs t address observer u start w')) ends
          (handle_disconnect-Departs t address observer apart start u there) in
      let gone : World t = record start { users = t.remove s.users address } in
      let left : announce_left t u gone ≡ done tt w = sym (rw (there, handle_disconnect)) ∙ ends in
      let kept =
        subst (λ x. Keeps t address gone.users (users_after t address x)) left
          (announce_left-Keeps t address u gone) in
      record {
        messages = h.messages;
        packets = h.packets;
        sent = h.sent;
        carry = h.carry;
        mirrors =
            departed-Mirrors t observer address u start w room h apart there
              (Reachable-IsNumbered t r small).distinct
              (λ a ne. kept.others a ne ∙ t.get-remove s.users address a ∙ rw (==_ne ne)) m;
      }

  Hears-accept :
      (k : ℕ) (s : ManagementServer t) (address token : ℕ) (room : ℕ → Option ParticipantInfo)
      → Reachable t k s
      → k + 1 < 2 ^ 64
      → t.get s.users address ≡ none
      → Mirrors t observer s.users room
      → Hears s.broadcasts
          (accept t address token s).broadcasts
          (accept t address token s).users
          room
  unfolding accept register_new_user send_event listen_to_packets
  Hears-accept k s address token room r small vacant m = record {
    messages = [];
    packets = [];
    sent = sym (append-nil s.broadcasts);
    carry = tt;
    mirrors =
        arrived-Mirrors t observer address (register_new_user t address token s).0 s.users room refl
          vacant
          (λ a v e i. absurd (omega (arith, (Reachable-IsNumbered t r small).given a v e, i))) m;
  }

  pub run-Hears :
      {n : ℕ} {m : ManagementServer t} {k : ℕ} {s : ManagementServer t}
      (room : ℕ → Option ParticipantInfo)
      → Reachable t n m
      → Elsewhere n m k s
      → k + 1 < 2 ^ 64
      → Mirrors t observer m.users room
      → Hears m.broadcasts s.broadcasts s.users room
  unfolding packet disconnect after send_event listen_to_packets
  run-Hears {m = m} room r stays small h = record {
    messages = [];
    packets = [];
    sent = sym (append-nil m.broadcasts);
    carry = tt;
    mirrors = h;
  }
  run-Hears {m = m} room r (accepts {k} {s} e address token apart vacant) small h =
      let before = run-Hears room r e (omega (arith, small)) h in
      further m.broadcasts s.broadcasts _ s.users _ room before (
        Hears-accept k s address token _ (Reachable-Elsewhere r e) (omega (arith, small)) vacant
          before.mirrors)
  run-Hears {m = m} room r
        (handles {k} {s} e address u p sent writable clock w apart there honest ends) small h =
      let before = run-Hears room r e small h in
      rw (ends, packet)
        (further m.broadcasts s.broadcasts w.broadcasts s.users w.users room before (
          Hears-packet k s address u p sent writable clock w _ (Reachable-Elsewhere r e) small apart
            there honest ends before.mirrors))
  run-Hears {m = m} room r (leaves {k} {s} e address u sent writable clock w apart there ends) small
        h =
      let before = run-Hears room r e small h in
      rw (ends, disconnect)
        (further m.broadcasts s.broadcasts w.broadcasts s.users w.users room before (
          Hears-disconnect k s address u sent writable clock w _ (Reachable-Elsewhere r e) small
            apart there ends before.mirrors))
