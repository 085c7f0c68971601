-- ===== src/Server/Management/Agreement.antt =====
-- The management server and the voice relay: what the events tell is what the users are.
pub mod Steps
use voiceapp.Base.{
  some_inj, some-none, ℕ, zero, suc, ◌+◌, ◌^◌, ◌<◌, ◌≡◌, ◌≢◌, refl, sym, ap, ◌∙◌, subst, ◌==◌,
  ==_iff, ◌⊎◌, inl, inr, Bool, true, false, Bool-cases, Option, none, some, Option-cases, List, [],
  ◌∷◌, ◌++◌, arith, if◌then◌else◌,
}
use voiceapp.Table.{Table}
use voiceapp.Server.User.{User}
use voiceapp.Server.Event.{Event, user_connected, voice_joined, voice_left, user_disconnected}
use voiceapp.Server.Relay.View.{View, talking, told, directory}
use voiceapp.Server.Handler.Quiet.{profile, profile_at}

directory-append :
    (xs ys : List Event) (v : View) → directory (xs ++ ys) v ≡ directory ys (directory xs v)
directory-append [] ys v = refl
directory-append (x ∷ xs) ys v = directory-append xs ys (told x v)

-- What the events tell, from the start.
abbrev pub known : List Event → View
known events = directory events (λ i. none)

known-snoc : (es : List Event) (e : Event) (j : ℕ) → known (es ++ (e ∷ [])) j ≡ told e (known es) j
known-snoc es e j = ap (λ (v : View). v j) (directory-append es (e ∷ []) (λ i. none))

ne-beq : (a b : ℕ) → a ≢ b → (a == b) ≡ false
ne-beq a b h = ground arith

beq_ne : (a b : ℕ) → (a == b) ≡ false → a ≢ b
beq_ne a b h e = ground arith

module _ (t : Table User) where
  -- Every user has, by the events, the token and the voice state that it has.
  abbrev pub Told : t.Map → List Event → Type 0
  Told users events =
      (a : ℕ) (u : User) → t.get users a ≡ some u → known events u.id ≡ some (u.token, u.in_voice)

  -- No two addresses have a user of the same number.
  abbrev pub Distinct : t.Map → Type 0
  Distinct users =
      (a b : ℕ) (u v : User) → t.get users a ≡ some u → t.get users b ≡ some v → u.id ≡ v.id → a ≡ b

  profile_of_user :
      (users : t.Map) (a : ℕ) (u : User)
      → t.get users a ≡ some u
      → profile_at t users a ≡ some (profile u)
  profile_of_user users a u e = rw (e, profile_at)

  profile_of_none : (users : t.Map) (a : ℕ) → t.get users a ≡ none → profile_at t users a ≡ none
  profile_of_none users a e = rw (e, profile_at)

  pub Told-of_profiles :
      (users users' : t.Map) (es : List Event)
      → ((a : ℕ) → profile_at t users' a ≡ profile_at t users a)
      → Told users es
      → Told users' es
  Told-of_profiles users users' es same h a u e = elim (Option-cases (t.get users a)) [
    | inl gone ↦
        absurd
          (some-none (sym (profile_of_user users' a u e) ∙ same a ∙ profile_of_none users a gone))
    | inr (v, there) ↦
        let is =
          some_inj
            (sym (profile_of_user users a v there) ∙ sym (same a) ∙ profile_of_user users' a u e) in
        ap (known es) (ap (λ (p : ℕ × ℕ × Bool). p.0) (sym is))
        ∙ h a v there
        ∙ ap (λ (p : ℕ × ℕ × Bool). some (p.1, p.2)) is
  ]

  -- A user that is put in the place of one with its number and token, and the event that says so.
  pub Told-voice :
      (users : t.Map) (es : List Event) (address : ℕ) (u u' : User) (e : Event)
      → Distinct users
      → t.get users address ≡ some u
      → u'.id ≡ u.id
      → u'.token ≡ u.token
      → ((v : View) (j : ℕ) → told e v j ≡ (if j == u.id then talking u'.in_voice (v j) else v j))
      → Told users es
      → Told (t.insert users address u') (es ++ (e ∷ []))
  Told-voice users es address u u' e distinct there ids tokens says h a v at_a =
      known-snoc es e v.id ∙ says (known es) v.id ∙ (elim (Bool-cases (a == address)) [
        | inl here ↦
            let v_is : u' ≡ v =
              some_inj (sym (rw here) ∙ sym (t.get-insert users address u' a) ∙ at_a) in
            let v_id : v.id ≡ u.id = ap (λ (x : User). x.id) (sym v_is) ∙ ids in
            rw ((==_iff v.id u.id).1 v_id) (
              ap (talking u'.in_voice) (ap (known es) v_id ∙ h address u there)
              ∙ ap some (λ i. (sym tokens i, u'.in_voice))
              ∙ ap (λ (x : User). some (x.token, x.in_voice)) v_is)
        | inr elsewhere ↦
            let old : t.get users a ≡ some v =
              sym (rw elsewhere) ∙ sym (t.get-insert users address u' a) ∙ at_a in
            let other : v.id ≢ u.id =
              λ same. absurd (beq_ne a address elsewhere (distinct a address v u old there same)) in
            rw (ne-beq v.id u.id other) (h a v old)
      ])

  -- A user that is removed, and the event that says so.
  pub Told-removed :
      (users : t.Map) (es : List Event) (address : ℕ) (u : User)
      → Distinct users
      → t.get users address ≡ some u
      → Told users es
      → Told (t.remove users address) (es ++ (user_disconnected u.id ∷ []))
  Told-removed users es address u distinct there h a v at_a =
      known-snoc es (user_disconnected u.id) v.id ∙ (elim (Bool-cases (a == address)) [
        | inl here ↦ absurd (some-none (sym at_a ∙ t.get-remove users address a ∙ rw here))
        | inr elsewhere ↦
            let old : t.get users a ≡ some v =
              sym (rw elsewhere) ∙ sym (t.get-remove users address a) ∙ at_a in
            let other : v.id ≢ u.id =
              λ same. absurd (beq_ne a address elsewhere (distinct a address v u old there same)) in
            rw (ne-beq v.id u.id other) (h a v old)
      ])

  -- A user with a number that no user has, and the event that says so.
  pub Told-connected :
      (users : t.Map) (es : List Event) (address : ℕ) (u : User)
      → u.in_voice ≡ false
      → ((a : ℕ) (v : User) → t.get users a ≡ some v → v.id ≢ u.id)
      → Told users es
      → Told (t.insert users address u) (es ++ (user_connected u.id u.token ∷ []))
  Told-connected users es address u quiet fresh h a v at_a =
      known-snoc es (user_connected u.id u.token) v.id ∙ (elim (Bool-cases (a == address)) [
        | inl here ↦
            let v_is : u ≡ v =
              some_inj (sym (rw here) ∙ sym (t.get-insert users address u a) ∙ at_a) in
            let v_id : v.id ≡ u.id = ap (λ (x : User). x.id) (sym v_is) in
            rw ((==_iff v.id u.id).1 v_id) (
              ap (λ (b : Bool). some (u.token, b)) (sym quiet)
              ∙ ap (λ (x : User). some (x.token, x.in_voice)) v_is)
        | inr elsewhere ↦
            let old : t.get users a ≡ some v =
              sym (rw elsewhere) ∙ sym (t.get-insert users address u a) ∙ at_a in
            rw (ne-beq v.id u.id (fresh a v old)) (h a v old)
      ])
