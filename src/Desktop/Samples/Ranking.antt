-- ===== src/Desktop/Samples/Ranking.antt =====
-- The search of desktop/src/audio/common.rs for a configuration, for any list of priorities.
use voiceapp.Base.{
  ℕ, suc, ◌≤◌, ◌<◌, ◌≡◌, refl, sym, ap, subst, ◌∙◌, ◌⊎◌, inl, inr, Option, none, some, Option-cases,
  List, [], ◌∷◌, ◌++◌, All, arith,
}
use voiceapp.Desktop.Samples.{
  StreamConfigRange, Priority, Best, try_config, try_configs, try_priorities,
}

-- What is returned of a configuration that is taken for a priority, or for none.
abbrev pub taken : List Priority → StreamConfigRange → Best
taken [] c = (c.max_sample_rate, c.sample_format, c.channels)
taken (p ∷ ps) c = elim (try_config p c) [ some best ↦ best | none ↦ taken ps c ]

-- The place of a configuration: of the first priority that it meets.
abbrev pub rank : List Priority → StreamConfigRange → ℕ
rank [] c = 0
rank (p ∷ ps) c = elim (try_config p c) [ some best ↦ 0 | none ↦ suc (rank ps c) ]

-- The first of the configurations with the lowest place in a list of priorities.
pub record Ranked (ps : List Priority) (configs : List StreamConfigRange) (best : Best)
    : Type 0 where
  pub before : List StreamConfigRange
  pub config : StreamConfigRange
  pub after : List StreamConfigRange
  pub split : configs ≡ before ++ (config ∷ after)
  pub worse : All (λ c. rank ps config < rank ps c) before
  pub no_better : All (λ c. rank ps config ≤ rank ps c) after
  pub is_taken : best ≡ taken ps config

Misses : Priority → StreamConfigRange → Type 0
Misses p c = try_config p c ≡ none

record Hit (p : Priority) (configs : List StreamConfigRange) (best : Best) : Type 0 where
  before : List StreamConfigRange
  config : StreamConfigRange
  after : List StreamConfigRange
  split : configs ≡ before ++ (config ∷ after)
  missed : All (Misses p) before
  hit : try_config p config ≡ some best

try_configs-cases :
    (p : Priority) (configs : List StreamConfigRange)
    → ((try_configs p configs ≡ none) × All (Misses p) configs)
      ⊎ ((best : Best) × (try_configs p configs ≡ some best) × Hit p configs best)
unfolding try_configs Misses
try_configs-cases p [] = inl (refl, tt)
try_configs-cases p (c ∷ cs) = elim (Option-cases (try_config p c)) [
  | inr (best, e) ↦ inr (
    best,
    rw (e, try_configs) refl,
    record { before = []; config = c; after = cs; split = refl; missed = tt; hit = e },
  )
  | inl e ↦ elim (try_configs-cases p cs) [
    | inl (none_, misses) ↦ inl (rw (e, try_configs) none_, (e, misses))
    | inr (best, found, h) ↦ inr (
      best,
      rw (e, try_configs) found,
      record {
        before = c ∷ h.before;
        config = h.config;
        after = h.after;
        split = ap (◌∷◌ c) h.split;
        missed = (e, h.missed);
        hit = h.hit;
      },
    )
  ]
]

rank_hit :
    (p : Priority) (ps : List Priority) (c : StreamConfigRange) {best : Best}
    → try_config p c ≡ some best
    → rank (p ∷ ps) c ≡ 0
rank_hit p ps c e = rw (e, rank) refl

rank_missed :
    (p : Priority) (ps : List Priority) (c : StreamConfigRange)
    → Misses p c
    → rank (p ∷ ps) c ≡ suc (rank ps c)
unfolding Misses
rank_missed p ps c e = rw (e, rank) refl

worse_of_missed :
    (p : Priority) (ps : List Priority) (config : StreamConfigRange) (cs : List StreamConfigRange)
    → rank (p ∷ ps) config ≡ 0
    → All (Misses p) cs
    → All (λ c. rank (p ∷ ps) config < rank (p ∷ ps) c) cs
worse_of_missed p ps config [] e h = tt
worse_of_missed p ps config (c ∷ cs) e h =
    (omega (arith, e, rank_missed p ps c h.0), worse_of_missed p ps config cs e h.1)

best_of_hit :
    (ps : List Priority) (config : StreamConfigRange) (cs : List StreamConfigRange)
    → rank ps config ≡ 0
    → All (λ c. rank ps config ≤ rank ps c) cs
best_of_hit ps config [] e = tt
best_of_hit ps config (c ∷ cs) e = (omega (arith, e), best_of_hit ps config cs e)

All-before :
    (P : StreamConfigRange → Type 0) (xs ys : List StreamConfigRange) → All P (xs ++ ys) → All P xs
All-before P [] ys h = tt
All-before P (x ∷ xs) ys h = (h.0, All-before P xs ys h.1)

All-after :
    (P : StreamConfigRange → Type 0) (xs ys : List StreamConfigRange) → All P (xs ++ ys) → All P ys
All-after P [] ys h = h
All-after P (x ∷ xs) ys h = All-after P xs ys h.1

worse_later :
    (p : Priority) (ps : List Priority) (config : StreamConfigRange) (cs : List StreamConfigRange)
    → Misses p config
    → All (Misses p) cs
    → All (λ c. rank ps config < rank ps c) cs
    → All (λ c. rank (p ∷ ps) config < rank (p ∷ ps) c) cs
worse_later p ps config [] m ms h = tt
worse_later p ps config (c ∷ cs) m ms h = (
  omega (arith, rank_missed p ps config m, rank_missed p ps c ms.0, h.0),
  worse_later p ps config cs m ms.1 h.1,
)

best_later :
    (p : Priority) (ps : List Priority) (config : StreamConfigRange) (cs : List StreamConfigRange)
    → Misses p config
    → All (Misses p) cs
    → All (λ c. rank ps config ≤ rank ps c) cs
    → All (λ c. rank (p ∷ ps) config ≤ rank (p ∷ ps) c) cs
best_later p ps config [] m ms h = tt
best_later p ps config (c ∷ cs) m ms h = (
  omega (arith, rank_missed p ps config m, rank_missed p ps c ms.0, h.0),
  best_later p ps config cs m ms.1 h.1,
)

abbrev pub or_first : StreamConfigRange → Option Best → Best
or_first c none = taken [] c
or_first c (some best) = best

later-Ranked :
    (p : Priority) (ps : List Priority) (configs : List StreamConfigRange) (best : Best)
    → All (Misses p) configs
    → Ranked ps configs best
    → Ranked (p ∷ ps) configs best
unfolding Misses
later-Ranked p ps configs best ms h =
    let all = subst (All (Misses p)) h.split ms in
    let behind = All-after (Misses p) h.before (h.config ∷ h.after) all in
    record {
      before = h.before;
      config = h.config;
      after = h.after;
      split = h.split;
      worse =
          worse_later p ps h.config h.before behind.0 (All-before (Misses p) h.before _ all)
            h.worse;
      no_better = best_later p ps h.config h.after behind.0 behind.1 h.no_better;
      is_taken = h.is_taken ∙ sym (rw (behind.0, taken) refl);
    }

pub try_priorities-Ranked :
    (ps : List Priority) (c : StreamConfigRange) (cs : List StreamConfigRange)
    → Ranked ps (c ∷ cs) (or_first c (try_priorities ps (c ∷ cs)))
unfolding try_priorities
try_priorities-Ranked [] c cs = record {
  before = [];
  config = c;
  after = cs;
  split = refl;
  worse = tt;
  no_better = best_of_hit [] c cs refl;
  is_taken = refl;
}
try_priorities-Ranked (p ∷ ps) c cs = elim (try_configs-cases p (c ∷ cs)) [
  | inl (missed, misses) ↦
      rw (missed, try_priorities)
        (later-Ranked p ps (c ∷ cs) _ misses (try_priorities-Ranked ps c cs))
  | inr (best, found, h) ↦
      rw (found, try_priorities, or_first)
        (record {
          before = h.before;
          config = h.config;
          after = h.after;
          split = h.split;
          worse = worse_of_missed p ps h.config h.before (rank_hit p ps h.config h.hit) h.missed;
          no_better = best_of_hit (p ∷ ps) h.config h.after (rank_hit p ps h.config h.hit);
          is_taken = sym (rw (h.hit, taken) refl);
        })
]
