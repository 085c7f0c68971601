-- ===== src/Server/World/Frames.antt =====
-- What a handler keeps, from what its parts keep: a relation between the worlds before and after
-- that each part respects.
use voiceapp.Base.{
  ℕ, Bool, true, false, Option, none, some, Option-cases, inl, inr, List, [], ◌∷◌, ◌++◌,
  if◌then◌else◌, Run, done, failed, panicked,
}
use voiceapp.Base.Runs.{◌>>=◌, ◌>>◌, pure}
use voiceapp.Table.{Table}
use voiceapp.Protocol.Packet.{Packet, encode}
use voiceapp.Server.Error.{ServerError, io}
use voiceapp.Server.User.{User}
use voiceapp.Server.Broadcast.{BroadcastMessage}
use voiceapp.Server.World.{World, Handler, write_all, respond, broadcast}

module _ (t : Table User) where
  -- The world that a run leaves, whichever way it ends.
  abbrev pub world_after : {A : Type 0} → Run (World t) ServerError A → World t
  world_after (done a w) = w
  world_after (failed e w) = w
  world_after (panicked w) = w

  -- A relation that does not see the socket and the broadcasts.
  pub record Frame (R : World t → World t → Type 0) : Type 0 where
    pub same : (w : World t) → R w w
    pub next : {u v w : World t} → R u v → R v w → R u w
    pub writes : (w : World t) (bytes : List ℕ) → R w (record w { sent = bytes })
    pub tells : (w : World t) (bs : List BroadcastMessage) → R w (record w { broadcasts = bs })

  module _ {R : World t → World t → Type 0} (frame : Frame R) where
    pub record Within {A : Type 0} (m : Handler t A) : Type 0 where
      pub at : (w : World t) → R w (world_after (m w))

    pub Within-bind :
        {A B : Type 0} {m : Handler t A} {f : A → Handler t B}
        → Within m
        → ((a : A) → Within (f a))
        → Within (m >>= f)
    unfolding ◌>>=◌
    Within-bind {A} {B} {m} {f} h k = record { at = λ w. step w (m w) (h.at w) }
      where
        step :
            (w : World t) (r : Run (World t) ServerError A)
            → R w (world_after r)
            → R w (
                world_after (elim r [
                  | done a w' ↦ f a w'
                  | failed e w' ↦ failed e w'
                  | panicked w' ↦ panicked w'
                ]))
        step w (done a w') h' = frame.next h' ((k a).at w')
        step w (failed e w') h' = h'
        step w (panicked w') h' = h'

    pub Within-then :
        {A B : Type 0} {m : Handler t A} {k : Handler t B} → Within m → Within k → Within (m >> k)
    unfolding ◌>>◌
    Within-then {A} {B} {m} {k} h j = record { at = λ w. step w (m w) (h.at w) }
      where
        step :
            (w : World t) (r : Run (World t) ServerError A)
            → R w (world_after r)
            → R w (
                world_after (elim r [
                  | done a w' ↦ k w'
                  | failed e w' ↦ failed e w'
                  | panicked w' ↦ panicked w'
                ]))
        step w (done a w') h' = frame.next h' (j.at w')
        step w (failed e w') h' = h'
        step w (panicked w') h' = h'

    pub Within-pure : {A : Type 0} (a : A) → Within (pure a)
    unfolding pure
    Within-pure a = record { at = λ w. frame.same w }

    pub Within-write_all : (bytes : List ℕ) → Within (write_all t bytes)
    unfolding write_all
    Within-write_all bytes = record { at = λ w. step w w.writable }
      where
        step :
            (w : World t) (b : Bool)
            → R w (
                world_after {A = Unit {0}}
                  (if b then done tt (record w { sent = w.sent ++ bytes }) else failed io w))
        step w true = frame.writes w (w.sent ++ bytes)
        step w false = frame.same w

    pub Within-respond : (p : Packet) → Within (respond t p)
    unfolding respond
    Within-respond p = record {
      at = λ w. elim (Option-cases (encode p)) [
        | inl e ↦ rw (e, world_after) (frame.same w)
        | inr (bytes, e) ↦ rw (e, world_after) ((Within-write_all bytes).at w)
      ];
    }

    pub Within-broadcast : (m : Option BroadcastMessage) → Within (broadcast t m)
    unfolding broadcast
    Within-broadcast none = record { at = λ w. frame.same w }
    Within-broadcast (some m) = record { at = λ w. frame.tells w (w.broadcasts ++ (m ∷ [])) }
