-- ===== src/Server/Management/Reach.antt =====
-- The states that the management server comes to, and the numbers of the users in them.
use voiceapp.Base.{
  some_inj, some-none, ℕ, suc, ◌+◌, ◌%◌, ◌^◌, ◌<◌, ◌≡◌, refl, sym, ap, ◌∙◌, ◌==◌, ==_iff, inl, inr,
  Bool, Bool-cases, ◌⊎◌, none, some, Option-cases, List, arith, Run, done, failed, panicked, final,
}
use voiceapp.Table.{Table}
use voiceapp.Protocol.Packet.{Packet}
use voiceapp.Server.Error.{ServerError}
use voiceapp.Server.User.{User}
use voiceapp.Server.World.{World}
use voiceapp.Server.Handler.{handle_packet, handle_disconnect, announce_left}
use voiceapp.Server.Handler.Keeps.{
  identity, identity_at, users_after, announce_left-Keeps, handle_packet-Keeps,
}
use voiceapp.Server.Management.{
  ManagementServer, new, register_new_user, accept, send_event, seen, after, packet, disconnect,
}

module _ (t : Table User) where
  -- The state after `n` connections were accepted.
  pub data Reachable : ℕ → ManagementServer t → Type 0 where
    starts : Reachable 0 (new t)
    accepts :
        {n : ℕ} {m : ManagementServer t}
        → Reachable n m
        → (address token : ℕ) → Reachable (suc n) (accept t address token m)
    handles :
        {n : ℕ} {m : ManagementServer t}
        → Reachable n m
        → (address : ℕ) (p : Packet) (sent : List ℕ) (writable : Bool) (clock : ℕ)
        → Reachable n (packet t address p sent writable clock m)
    leaves :
        {n : ℕ} {m : ManagementServer t}
        → Reachable n m
        → (address id : ℕ) (sent : List ℕ) (writable : Bool) (clock : ℕ)
        → Reachable n (disconnect t address id sent writable clock m)

  pub record IsNumbered (n : ℕ) (m : ManagementServer t) : Type 0 where
    pub next : m.next_user_id ≡ suc n
    -- No user has a number that is still to be given.
    pub given : (a : ℕ) (u : User) → t.get m.users a ≡ some u → u.id < m.next_user_id
    -- No two addresses have a user of the same number.
    pub distinct :
        (a b : ℕ) (u v : User)
        → t.get m.users a ≡ some u
        → t.get m.users b ≡ some v
        → u.id ≡ v.id
        → a ≡ b

  identity_of_user :
      (users : t.Map) (a : ℕ) (u : User)
      → t.get users a ≡ some u
      → identity_at t users a ≡ some (u.id, u.token)
  unfolding identity_at identity
  identity_of_user users a u e = rw (e, identity_at)

  identity_of_none : (users : t.Map) (a : ℕ) → t.get users a ≡ none → identity_at t users a ≡ none
  unfolding identity_at
  identity_of_none users a e = rw (e, identity_at)

  -- A user after a step that keeps identities was there before it, with its number and token.
  pub before :
      (users users' : t.Map) (a : ℕ) (u : User)
      → identity_at t users' a ≡ identity_at t users a
      → t.get users' a ≡ some u
      → (v : User) × (t.get users a ≡ some v) × (v.id ≡ u.id) × (v.token ≡ u.token)
  before users users' a u same e = elim (Option-cases (t.get users a)) [
    | inl gone ↦
        absurd
          (some-none (sym (identity_of_user users' a u e) ∙ same ∙ identity_of_none users a gone))
    | inr (v, there) ↦
        let ids =
          some_inj
            (sym (identity_of_user users a v there) ∙ sym same ∙ identity_of_user users' a u e) in
        (v, there, ap (λ (x : ℕ × ℕ). x.0) ids, ap (λ (x : ℕ × ℕ). x.1) ids)
  ]

  pub users-final :
      (address : ℕ) {A : Type 0} (r : Run (World t) ServerError A)
      → (final {W = World t} r).users ≡ users_after t address r
  users-final address (done a w) = refl
  users-final address (failed e w) = refl
  users-final address (panicked w) = refl

  -- Users that were all there before, with their numbers, are numbered.
  fewer-IsNumbered :
      {n : ℕ} (m m' : ManagementServer t)
      → m'.next_user_id ≡ m.next_user_id
      → ((a : ℕ) (u : User)
          → t.get m'.users a ≡ some u
          → (v : User) × (t.get m.users a ≡ some v) × (v.id ≡ u.id))
      → IsNumbered n m
      → IsNumbered n m'
  fewer-IsNumbered m m' next was h = record {
    next = next ∙ h.next;
    given =
        λ a u e. let (v, there, same) = was a u e in omega (arith, h.given a v there, same, next);
    distinct = λ a b u v ea eb same.
        let (u0, there_a, same_a) = was a u ea in
        let (v0, there_b, same_b) = was b v eb in
        h.distinct a b u0 v0 there_a there_b (same_a ∙ same ∙ sym same_b);
  }

  packet-before :
      (m : ManagementServer t) (address : ℕ) (p : Packet) (sent : List ℕ) (writable : Bool)
      (clock : ℕ) (a : ℕ) (u : User)
      → t.get (packet t address p sent writable clock m).users a ≡ some u
      → (v : User) × (t.get m.users a ≡ some v) × (v.id ≡ u.id)
  unfolding packet after seen
  packet-before m address p sent writable clock a u e =
      let w = seen t sent writable clock m in
      let kept = handle_packet-Keeps t address p w in
      let (v, there, same, _) =
        before m.users (users_after t address (handle_packet t address p w)) a u
          (kept.same_identity a)
          (ap (λ (x : t.Map). t.get x a) (sym (users-final address (handle_packet t address p w)))
            ∙ e) in
      (v, there, same)

  removed_before :
      (users : t.Map) (address a : ℕ) (u : User)
      → t.get (t.remove users address) a ≡ some u
      → t.get users a ≡ some u
  removed_before users address a u e = elim (Bool-cases (a == address)) [
    | inl here ↦ absurd (some-none (sym e ∙ t.get-remove users address a ∙ rw here))
    | inr there ↦ sym (t.get-remove users address a ∙ rw there) ∙ e
  ]

  disconnect-identity :
      (m : ManagementServer t) (address id : ℕ) (sent : List ℕ) (writable : Bool) (clock a : ℕ)
      → identity_at t (disconnect t address id sent writable clock m).users a
        ≡ identity_at t (t.remove m.users address) a
  unfolding disconnect after seen send_event handle_disconnect
  disconnect-identity m address id sent writable clock a =
      let w : World t = record (seen t sent writable clock m) {
        users = t.remove m.users address;
      } in
      elim (Option-cases (t.get m.users address)) [
        | inl absent ↦ rw (absent, disconnect, after, handle_disconnect)
        | inr (user, present) ↦
            rw (present, disconnect, after, handle_disconnect)
              (ap (λ (x : t.Map). identity_at t x a) (users-final address (announce_left t user w))
                ∙ (announce_left-Keeps t address user w).same_identity a)
      ]

  disconnect-before :
      (m : ManagementServer t) (address id : ℕ) (sent : List ℕ) (writable : Bool) (clock : ℕ)
      (a : ℕ) (u : User)
      → t.get (disconnect t address id sent writable clock m).users a ≡ some u
      → (v : User) × (t.get m.users a ≡ some v) × (v.id ≡ u.id)
  disconnect-before m address id sent writable clock a u e =
      let (v, there, same, _) =
        before (t.remove m.users address) (disconnect t address id sent writable clock m).users a u
          (disconnect-identity m address id sent writable clock a) e in
      (v, removed_before m.users address a v there, same)

  -- A user after an accepted connection is its own, or was there.
  accepted :
      (m : ManagementServer t) (address token a : ℕ) (u : User)
      → t.get (accept t address token m).users a ≡ some u
      → ((a ≡ address) × (u.id ≡ m.next_user_id)) ⊎ (t.get m.users a ≡ some u)
  unfolding accept register_new_user send_event
  accepted m address token a u e = elim (Bool-cases (a == address)) [
    | inl here ↦ inl (
      (==_iff a address).0 here,
      ap (λ (x : User). x.id)
          (let new_is : some u ≡ some (register_new_user t address token m).0 =
              sym e ∙ t.get-insert m.users address _ a ∙ rw here in
            some_inj new_is),
    )
    | inr there ↦ inr (sym (t.get-insert m.users address _ a ∙ rw there) ∙ e)
  ]

  accept-IsNumbered :
      {n : ℕ} (m : ManagementServer t) (address token : ℕ)
      → n + 2 < 2 ^ 64
      → IsNumbered n m
      → IsNumbered (suc n) (accept t address token m)
  unfolding accept register_new_user send_event
  accept-IsNumbered {n} m address token room h =
      let next : (m.next_user_id + 1) % 2 ^ 64 ≡ suc (suc n) = omega (arith, h.next, room) in
      record {
        next = next;
        given = λ a u e. elim (accepted m address token a u e) [
          | inl (here, new_id) ↦ omega (arith, next, new_id, h.next)
          | inr old ↦ omega (arith, next, h.next, h.given a u old)
        ];
        distinct = λ a b u v ea eb same. elim (accepted m address token a u ea) [
          | inl (a_is, u_new) ↦ elim (accepted m address token b v eb) [
            | inl (b_is, v_new) ↦ a_is ∙ sym b_is
            | inr v_old ↦ absurd (omega (arith, h.given b v v_old, u_new, same))
          ]
          | inr u_old ↦ elim (accepted m address token b v eb) [
            | inl (b_is, v_new) ↦ absurd (omega (arith, h.given a u u_old, v_new, same))
            | inr v_old ↦ h.distinct a b u v u_old v_old same
          ]
        ];
      }

  -- While fewer than 2^64 - 1 connections were accepted: whatever packets the connections sent and
  -- however they ended, in any order, no two addresses have users of the same number, and
  -- no user has a number that is still to be given.
  pub Reachable-IsNumbered :
      {n : ℕ} {m : ManagementServer t} → Reachable n m → n + 1 < 2 ^ 64 → IsNumbered n m
  unfolding new packet after disconnect send_event
  Reachable-IsNumbered starts room = record {
    next = refl;
    given = λ a u e. absurd (some-none (sym e ∙ t.get-empty a));
    distinct = λ a b u v ea eb same. absurd (some-none (sym ea ∙ t.get-empty a));
  }
  Reachable-IsNumbered (accepts {n} {m} r address token) room =
      accept-IsNumbered m address token (omega (arith, room))
        (Reachable-IsNumbered r (omega (arith, room)))
  Reachable-IsNumbered (handles {n} {m} r address p sent writable clock) room =
      fewer-IsNumbered m (packet t address p sent writable clock m) refl
        (packet-before m address p sent writable clock) (Reachable-IsNumbered r room)
  Reachable-IsNumbered (leaves {n} {m} r address id sent writable clock) room =
      fewer-IsNumbered m (disconnect t address id sent writable clock m) refl
        (disconnect-before m address id sent writable clock) (Reachable-IsNumbered r room)
