-- ===== src/Server/Handler/Login.antt =====
-- The login: whom the answer lists, and who is told.
use voiceapp.Base.{
  some_inj, none-some, ℕ, ◌≡◌, sym, ap, ◌∙◌, ◌↔◌, inl, inr, some, Option-cases, List, Member,
  filter_map_iff,
}
use voiceapp.Table.{Table}
use voiceapp.Protocol.Packet.{ParticipantInfo}
use voiceapp.Server.User.{User}
use voiceapp.Server.Handler.{participant, participants}

-- The entry of a user in the list of participants.
abbrev pub info : User → List ℕ → ParticipantInfo
info u username = record {
  user_id = u.id;
  username = username;
  in_voice = u.in_voice;
  is_muted = u.is_muted;
}

participant_iff :
    (a : ℕ) (u : User) (i : ParticipantInfo)
    → (participant (a, u) ≡ some i)
      ↔ ((name : List ℕ) × (u.username ≡ some name) × (i ≡ info u name))
unfolding participant
participant_iff a u i = elim (Option-cases u.username) [
  | inl e ↦ (
    λ h. absurd (none-some (sym (rw (e, participant)) ∙ h)),
    λ h. absurd (none-some (sym e ∙ h.1)),
  )
  | inr (name, e) ↦ (
    λ h. (name, e, sym (some_inj (sym (listed u name e) ∙ h))),
    λ h. listed u h.0 h.1 ∙ ap some (sym h.2),
  )
]
  where
    listed :
        (u : User) (name : List ℕ)
        → u.username ≡ some name
        → participant (a, u) ≡ some (info u name)
    listed u name e = rw (e, participant)

module _ (t : Table User) where
  -- The participants are the users that have told a name, as they are.
  pub participants_iff :
      (users : t.Map) (i : ParticipantInfo)
      → Member i (participants t users) ↔ (
          (a : ℕ) × (u : User) × (name : List ℕ) × (t.get users a ≡ some u)
          × (u.username ≡ some name)
          × (i ≡ info u name))
  unfolding participants
  participants_iff users i = (
    λ m.
        let ((a, u), listed, e) = (filter_map_iff participant (t.entries users) i).0 m in
        let (name, named, is) = (participant_iff a u i).0 e in
        (a, u, name, (t.entries_iff users a u).0 listed, named, is),
    λ h.
        let (a, u, name, there, named, is) = h in
        (filter_map_iff participant (t.entries users) i).1
          ((a, u), (t.entries_iff users a u).1 there, (participant_iff a u i).1 (name, named, is)),
  )
