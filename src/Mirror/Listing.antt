-- ===== src/Mirror/Listing.antt =====
-- The list of participants of a login response, as a room reads it.
use voiceapp.Base.{
  some_inj, some-none, ℕ, ◌≡◌, ◌≢◌, refl, sym, ap, ◌∙◌, ◌⊎◌, inl, inr, ◌==◌, ==_iff, Bool-cases,
  Option, none, some, Option-cases, List, [], ◌∷◌, Member,
}
use voiceapp.Table.{Table}
use voiceapp.Protocol.Packet.{ParticipantInfo}
use voiceapp.Server.User.{User}
use voiceapp.Server.Handler.{participants}
use voiceapp.Server.Handler.Login.{info, participants_iff}
use voiceapp.Server.Management.Agreement.{Distinct}
use voiceapp.Desktop.Room.Roster.{listed}
use voiceapp.Mirror.{shown}
use voiceapp.Mirror.Hears.{==_ne}
use voiceapp.Mirror.Everyone.{beq_ne, Mirrors}

listed_absent :
    (k : ℕ) (ps : List ParticipantInfo) (o : Option ParticipantInfo)
    → ((p : ParticipantInfo) → Member p ps → k ≢ p.user_id)
    → listed k ps o ≡ o
listed_absent k [] o h = refl
listed_absent k (p ∷ ps) o h =
    rw (==_ne (h p (inl refl))) (listed_absent k ps o (λ q m. h q (inr m)))

listed_only :
    (k : ℕ) (ps : List ParticipantInfo) (q : ParticipantInfo) (o : Option ParticipantInfo)
    → q.user_id ≡ k
    → ((p : ParticipantInfo) → Member p ps → p.user_id ≡ k → p ≡ q)
    → (o ≡ some q) ⊎ Member q ps
    → listed k ps o ≡ some q
listed_only k [] q o is only h = elim h [ inl e ↦ e | inr m ↦ elim m [ ] ]
listed_only k (p ∷ ps) q o is only h = elim (Bool-cases (k == p.user_id)) [
  | inl same ↦ rw same (
      listed_only k ps q (some p) is (λ x m. only x (inr m))
        (inl (ap some (only p (inl refl) (sym ((==_iff k p.user_id).0 same))))))
  | inr other ↦ rw other (
      listed_only k ps q o is (λ x m. only x (inr m))
        (elim h [
          | inl e ↦ inl e
          | inr m ↦ elim m [
            | inl first ↦
                absurd (
                  beq_ne k p.user_id other (sym is ∙ ap (λ (x : ParticipantInfo). x.user_id) first))
            | inr later ↦ inr later
          ]
        ]))
]

module _ (t : Table User) where
  shown_named : (u : User) (name : List ℕ) → u.username ≡ some name → shown u ≡ some (info u name)
  unfolding shown
  shown_named u name e = rw (e, shown)

  shown_unnamed : (u : User) → u.username ≡ none → shown u ≡ none
  unfolding shown
  shown_unnamed u e = rw (e, shown)

  pub listed-shown :
      (users : t.Map) (a : ℕ) (u : User)
      → Distinct t users
      → t.get users a ≡ some u
      → listed u.id (participants t users) none ≡ shown u
  listed-shown users a u distinct there = elim (Option-cases u.username) [
    | inl unnamed ↦
        listed_absent u.id (participants t users) none (λ p m same.
          let (b, v, name, there_v, named, is) = (participants_iff t users p).0 m in
          let ids : u.id ≡ v.id = same ∙ ap (λ (x : ParticipantInfo). x.user_id) is in
          let at : a ≡ b = distinct a b u v there there_v ids in
          let same_user : u ≡ v = some_inj (sym there ∙ ap (t.get users) at ∙ there_v) in
          absurd (some-none (sym named ∙ ap (λ (x : User). x.username) (sym same_user) ∙ unnamed)))
        ∙ sym (shown_unnamed u unnamed)
    | inr (name, named) ↦
        listed_only u.id (participants t users) (info u name) none refl
          (λ p m same.
            let (b, v, name_v, there_v, named_v, is) = (participants_iff t users p).0 m in
            let ids : u.id ≡ v.id = sym same ∙ ap (λ (x : ParticipantInfo). x.user_id) is in
            let at : a ≡ b = distinct a b u v there there_v ids in
            let same_user : u ≡ v = some_inj (sym there ∙ ap (t.get users) at ∙ there_v) in
            let names : name_v ≡ name =
              some_inj (sym named_v ∙ ap (λ (x : User). x.username) (sym same_user) ∙ named) in
            is ∙ (λ i. info (sym same_user i) (names i)))
          (inr ((participants_iff t users (info u name)).1 (a, u, name, there, named, refl)))
        ∙ sym (shown_named u name named)
  ]

  pub listed-Mirrors :
      (observer : ℕ) (users : t.Map)
      → Distinct t users
      → Mirrors t observer users (λ k. listed k (participants t users) none)
  listed-Mirrors observer users distinct = record {
    each = λ a u away e. listed-shown users a u distinct e;
    nobody = λ k free. listed_absent k (participants t users) none (λ p m same.
        let (a, u, name, there, named, is) = (participants_iff t users p).0 m in
        absurd (free a u there (sym (same ∙ ap (λ (x : ParticipantInfo). x.user_id) is))));
  }
