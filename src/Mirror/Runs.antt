-- ===== src/Mirror/Runs.antt =====
-- What the parts of a handler have done when it has come to its end.
use voiceapp.Base.{
  ℕ, ◌≡◌, refl, sym, subst, inl, inr, Bool-cases, none, some, Option-cases, List, [], ◌∷◌, ◌++◌,
  Run, done, failed, panicked,
}
use voiceapp.Base.Runs.{◌>>=◌, ◌>>◌}
use voiceapp.Table.{Table, get-insert_same}
use voiceapp.Protocol.Packet.{Packet, encode}
use voiceapp.Server.Error.{ServerError}
use voiceapp.Server.User.{User}
use voiceapp.Server.Event.{Event}
use voiceapp.Server.Broadcast.{BroadcastMessage, excluding, for_all}
use voiceapp.Server.World.{World, Handler, write_all, respond, send_event, broadcast, change_user}

module _ (t : Table User) where
  -- The world of a run that has come to its end, and its value.
  abbrev pub Ended : {A : Type 0} → Run (World t) ServerError A → (A → World t → Type 0) → Type 0
  Ended (done a w) P = P a w
  Ended (failed e w) P = Unit {0}
  Ended (panicked w) P = Unit {0}

  pub Ended-bind :
      {A B : Type 0} (m : Handler t A) (f : A → Handler t B) (w : World t)
      (P : A → World t → Type 0) (Q : B → World t → Type 0)
      → Ended (m w) P
      → ((a : A) (w' : World t) → P a w' → Ended (f a w') Q)
      → Ended ((m >>= f) w) Q
  unfolding ◌>>=◌
  Ended-bind {A} {B} m f w P Q h k = step (m w) h
    where
      step :
          (r : Run (World t) ServerError A)
          → Ended r P
          → Ended
              (elim r [
                | done a w' ↦ f a w'
                | failed e w' ↦ failed e w'
                | panicked w' ↦ panicked w'
              ])
              Q
      step (done a w') h = k a w' h
      step (failed e w') h = tt
      step (panicked w') h = tt

  pub Ended-then :
      {A B : Type 0} (m : Handler t A) (k : Handler t B) (w : World t) (P : A → World t → Type 0)
      (Q : B → World t → Type 0)
      → Ended (m w) P
      → ((a : A) (w' : World t) → P a w' → Ended (k w') Q)
      → Ended ((m >> k) w) Q
  unfolding ◌>>◌
  Ended-then {A} {B} m k w P Q h j = step (m w) h
    where
      step :
          (r : Run (World t) ServerError A)
          → Ended r P
          → Ended
              (elim r [ done a w' ↦ k w' | failed e w' ↦ failed e w' | panicked w' ↦ panicked w' ])
              Q
      step (done a w') h = j a w' h
      step (failed e w') h = tt
      step (panicked w') h = tt

  -- The users and the broadcasts are as they were.
  pub record Same (w w' : World t) : Type 0 where
    pub users : w'.users ≡ w.users
    pub broadcasts : w'.broadcasts ≡ w.broadcasts

  -- One message was put on the channel.
  pub record Put (m : BroadcastMessage) (w w' : World t) : Type 0 where
    pub users : w'.users ≡ w.users
    pub broadcasts : w'.broadcasts ≡ w.broadcasts ++ (m ∷ [])

  pub Ended-respond : (p : Packet) (w : World t) → Ended (respond t p w) (λ _ w'. Same w w')
  unfolding respond write_all
  Ended-respond p w = elim (Option-cases (encode p)) [
    | inl panic ↦ rw (panic, respond, Ended) tt
    | inr (bytes, e) ↦ elim (Bool-cases w.writable) [
      | inl takes ↦ rw (e, respond, takes, Ended) (record { users = refl; broadcasts = refl })
      | inr fails ↦ rw (e, respond, fails, Ended) tt
    ]
  ]

  pub Ended-send_event : (e : Event) (w : World t) → Ended (send_event t e w) (λ _ w'. Same w w')
  unfolding send_event
  Ended-send_event e w = record { users = refl; broadcasts = refl }

  pub Ended-excluding :
      (a : ℕ) (p : Packet) (w : World t)
      → Ended (broadcast t (excluding a p) w) (λ _ w'.
        (bytes : List ℕ) × (encode p ≡ some bytes)
        × Put (record { exclude = some a; data_ = bytes }) w w')
  unfolding broadcast excluding
  Ended-excluding a p w = elim (Option-cases (encode p)) [
    | inl panic ↦ rw (panic, broadcast, excluding, Ended) tt
    | inr (bytes, e) ↦
        rw (e, broadcast, excluding, Ended)
          (bytes, refl, record { users = refl; broadcasts = refl })
  ]

  pub Ended-for_all :
      (p : Packet) (w : World t)
      → Ended (broadcast t (for_all p) w) (λ _ w'.
        (bytes : List ℕ) × (encode p ≡ some bytes)
        × Put (record { exclude = none; data_ = bytes }) w w')
  unfolding broadcast for_all
  Ended-for_all p w = elim (Option-cases (encode p)) [
    | inl panic ↦ rw (panic, broadcast, for_all, Ended) tt
    | inr (bytes, e) ↦
        rw (e, broadcast, for_all, Ended) (bytes, refl, record { users = refl; broadcasts = refl })
  ]

  -- The user at the address was changed, and nothing was put on the channel.
  pub record Changed (a : ℕ) (u : User) (w w' : World t) : Type 0 where
    pub user : t.get w'.users a ≡ some u
    pub broadcasts : w'.broadcasts ≡ w.broadcasts

  pub Ended-change_user :
      (a : ℕ) (f : User → User) (w : World t) {u : User}
      → t.get w.users a ≡ some u
      → Ended (change_user t a f w) (λ v w'. (v ≡ f u) × Changed a (f u) w w')
  unfolding change_user
  Ended-change_user a f w {u} e =
      rw (e, change_user, Ended)
        (refl, record { user = get-insert_same t w.users a (f u); broadcasts = refl })

  -- A handler that starts with a change of the user.
  pub Ended-changed :
      {B : Type 0} (a : ℕ) (f : User → User) (k : User → Handler t B) (w : World t) {u : User}
      (Q : B → World t → Type 0)
      → t.get w.users a ≡ some u
      → ((w' : World t) → Changed a (f u) w w' → Ended (k (f u) w') Q)
      → Ended ((change_user t a f >>= k) w) Q
  Ended-changed a f k w {u} Q e h =
      Ended-bind (change_user t a f) k w _ Q (Ended-change_user a f w e)
        (λ v w' (is, c). subst (λ x. Ended (k x w') Q) (sym is) (h w' c))

  pub Ended-map :
      {A : Type 0} (r : Run (World t) ServerError A) (P Q : A → World t → Type 0)
      → Ended r P
      → ((a : A) (w : World t) → P a w → Q a w)
      → Ended r Q
  Ended-map (done a w) P Q h f = f a w h
  Ended-map (failed e w) P Q h f = tt
  Ended-map (panicked w) P Q h f = tt
