-- ===== src/Desktop/Samples/Best.antt =====
-- The best configuration of a device: desktop/src/audio/common.rs, find_best_stream_config.
use voiceapp.Base.{
  ℕ, ◌≤◌, ◌<◌, ◌≡◌, refl, subst, ◌∙◌, inl, inr, some, Option-cases, List, ◌∷◌, ◌++◌, All, arith,
  Bool, true, false, ◌&&◌, leb, ltb, if◌then◌else◌,
}
use voiceapp.Desktop.Samples.{
  SampleFormat, f32, i16, u16, other_format, StreamConfigRange, Best, priorities, try_config,
  try_priorities, find_best_stream_config,
}
use voiceapp.Desktop.Samples.Ranking.{Ranked, rank, taken, or_first, try_priorities-Ranked}

-- A device runs at 48000 Hz in this configuration.
abbrev pub covers_48000 : StreamConfigRange → Bool
covers_48000 c = leb c.min_sample_rate 48000 && leb 48000 c.max_sample_rate

-- The places of the documentation: 48000 Hz with F32, with I16 and with U16, any rate with F32, and
-- all others. The Boolean says whether the configuration covers 48000 Hz.
abbrev pub place_of : SampleFormat → Bool → ℕ
place_of f32 true = 0
place_of i16 true = 1
place_of u16 true = 2
place_of f32 false = 3
place_of i16 false = 4
place_of u16 false = 4
place_of (other_format n) b = 4

abbrev pub place : StreamConfigRange → ℕ
place c = place_of c.sample_format (covers_48000 c)

-- The rate is 48000 Hz in the first three places, and the highest of the configuration in the others.
abbrev pub chosen : StreamConfigRange → Best
chosen c = (if ltb (place c) 3 then 48000 else c.max_sample_rate, c.sample_format, c.channels)

-- The first of the configurations with the lowest place.
pub record IsFirst (configs : List StreamConfigRange) (best : Best) : Type 0 where
  pub before : List StreamConfigRange
  pub config : StreamConfigRange
  pub after : List StreamConfigRange
  pub split : configs ≡ before ++ (config ∷ after)
  pub worse : All (λ c. place config < place c) before
  pub no_better : All (λ c. place config ≤ place c) after
  pub is_chosen : best ≡ chosen config

-- A configuration by its parts, and both views of it.
record IsPlaced (c : StreamConfigRange) : Type 0 where
  ranked : rank priorities c ≡ place c
  gives : taken priorities c ≡ chosen c

format-IsPlaced :
    (f : SampleFormat) (lo hi channels : ℕ)
    → IsPlaced (record {
      sample_format = f;
      min_sample_rate = lo;
      max_sample_rate = hi;
      channels = channels;
    })
unfolding try_config
format-IsPlaced f32 lo hi channels = record { ranked = ground arith; gives = ground arith }
format-IsPlaced i16 lo hi channels = record { ranked = ground arith; gives = ground arith }
format-IsPlaced u16 lo hi channels = record { ranked = ground arith; gives = ground arith }
format-IsPlaced (other_format n) lo hi channels = record { ranked = refl; gives = refl }

placed : (c : StreamConfigRange) → IsPlaced c
placed c = format-IsPlaced c.sample_format c.min_sample_rate c.max_sample_rate c.channels

Ranked-IsFirst :
    (configs : List StreamConfigRange) (best : Best)
    → Ranked priorities configs best
    → IsFirst configs best
Ranked-IsFirst configs best h =
    let same : rank priorities ≡ place = λ i c. (placed c).ranked i in
    record {
      before = h.before;
      config = h.config;
      after = h.after;
      split = h.split;
      worse = subst (λ f. All (λ c. f h.config < f c) h.before) same h.worse;
      no_better = subst (λ f. All (λ c. f h.config ≤ f c) h.after) same h.no_better;
      is_chosen = h.is_taken ∙ (placed h.config).gives;
    }

-- Of a device with configurations, the first is chosen of those with the lowest place, where a
-- configuration that covers 48000 Hz has place 0 with F32, 1 with I16 and 2 with U16, any other with
-- F32 has place 3, and all the rest have place 4. Its format and channels are returned, with 48000 Hz
-- for the places 0 to 2 and its highest rate for the others.
pub find_best-IsFirst :
    (c : StreamConfigRange) (cs : List StreamConfigRange)
    → (best : Best) × (find_best_stream_config (c ∷ cs) ≡ some best) × IsFirst (c ∷ cs) best
unfolding find_best_stream_config
find_best-IsFirst c cs =
    let first = try_priorities-Ranked priorities c cs in
    elim (Option-cases (try_priorities priorities (c ∷ cs))) [
      | inl nothing ↦ (
        _,
        rw (nothing, find_best_stream_config) refl,
        Ranked-IsFirst (c ∷ cs) _ (rw (nothing, or_first) at first),
      )
      | inr (best, e) ↦ (
        best,
        rw (e, find_best_stream_config) refl,
        Ranked-IsFirst (c ∷ cs) best (rw (e, or_first) at first),
      )
    ]
