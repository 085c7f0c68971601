-- ===== src/Desktop/Notification.antt =====
-- desktop/src/audio/notification_player.rs: the player of the notification sounds. The sounds, which
-- are read from files when it is made, and the change of their volume are parameters.
pub mod Plays
use voiceapp.Base.{
  ℕ, zero, suc, ◌+◌, ◌-◌, ltb, leb, min, Bool, true, false, if◌then◌else◌, Option, none, some, List,
  [], ◌∷◌, ◌++◌, length, take, drop,
}
use voiceapp.Desktop.Message.{String}

module _ {Sample : Type 0} (silence : Sample) (sounds : String → Option (List Sample))
    (adjust_volume : List Sample → ℕ → List Sample) (chunk_size : ℕ) where
  pub record CurrentNotification : Type 0 where
    pub samples : List Sample
    pub position : ℕ

  -- The state behind the lock: what is being played.
  abbrev pub State : Type 0
  State = Option CurrentNotification

  -- A sound that is not known changes nothing.
  unfoldable pub play : String → ℕ → State → State
  play sound_id volume s = elim (sounds sound_id) [
    | some samples ↦ some (record { samples = adjust_volume samples volume; position = 0 })
    | none ↦ s
  ]

  unfoldable pub silent : ℕ → List Sample
  silent zero = []
  silent (suc n) = silence ∷ silent n

  -- What is left is copied, as far as it fits a chunk; at the end of the sound nothing is played.
  unfoldable pub next_chunk : CurrentNotification → List Sample × State
  next_chunk current =
      let to_copy = min (length current.samples - current.position) chunk_size in
      (
        take to_copy (drop current.position current.samples),
        (if leb (length current.samples) (current.position + to_copy)
            then none
            else some (record current { position = current.position + to_copy })),
      )

  unfoldable pub get_audio : State → List Sample × State
  get_audio none = (silent chunk_size, none)
  get_audio (some current) =
      if ltb 0 (length current.samples - current.position)
      then next_chunk current
      else (silent chunk_size, some current)

  -- What the output gets in so many calls.
  unfoldable pub calls : ℕ → State → List Sample
  calls zero s = []
  calls (suc k) s = let given = get_audio s in given.0 ++ calls k given.1
