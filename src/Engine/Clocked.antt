-- ===== src/Engine/Clocked.antt =====
-- The logical clock and the mood of a session over its calls (proxy/connection.py and core/mood.py of
-- src/dogdb).
pub mod Calls
use mathlib.Core.Option
use mathlib.Core.Option.{some-injective}
use mathlib.Core.Path.{subst}
use dogdb.Prelude.{
  ℕ, suc, ◌+◌, ◌<◌, ◌≡◌, ◌≢◌, refl, sym, ap, ◌∙◌, String, true, false, Option, none, some, arith,
}
use dogdb.Platform.{Platform}
use dogdb.Mood
use dogdb.Mood.{MoodEngine}
use dogdb.Mood.Epochs.{IsMoodOf, IsMoodOf-advance, config-advance, add_one}
use dogdb.Session.{Session}
use dogdb.Exec.{Exec, ok}
use dogdb.Exec.Keeps.{Keeps}
use dogdb.Engine.{begin_operation}
use dogdb.Engine.Ticks.{Ticking, Ends, moved, begin_operation-Ends}
use dogdb.Engine.Cached.Leads.{Leads}
use dogdb.Engine.Step.{
  untimed, Step, Reach, here, next, log, hide, give_back, give_all_back, release, schedule, cancel,
  advance, cache, mood, stats, occur, tick, sleep, warn, backend,
}

-- The mood is that of n ticks, by its configuration.
abbrev pub MoodOf : Platform → String → String → ℕ → Option MoodEngine → Type 0
MoodOf p seed id n none = Unit
MoodOf p seed id n (some m) = (0 < m.config.epoch_length) × IsMoodOf p seed id m.config n m

-- The session has begun n operations.
pub record IsClocked (p : Platform) (seed id : String) (n : ℕ) (s : Session) : Type 0 where
  pub clock : s.logical_tick ≡ some n
  pub mood : MoodOf p seed id n s.mood

tick_of :
    (p : Platform) (seed id : String) (n : ℕ) (o : Option MoodEngine)
    → MoodOf p seed id n o
    → (m : MoodEngine) → o ≡ some m
    → m.tick ≡ n
tick_of p seed id n none h m e = cc e
tick_of p seed id n (some k) h m e = ap (λ m. m.tick) (sym (some-injective _ m e)) ∙ h.1.tick

pub IsClocked-Ticking :
    {p : Platform} {seed id : String} {n : ℕ} {s : Session} → IsClocked p seed id n s → Ticking n s
IsClocked-Ticking {p} {seed} {id} {n} {s} h = record {
  clock = h.clock;
  agrees = tick_of p seed id n s.mood h.mood;
}

MoodOf-moved :
    (p : Platform) (seed id : String) (n : ℕ) (o : Option MoodEngine)
    → MoodOf p seed id n o
    → MoodOf p seed id (suc n) (moved p o)
MoodOf-moved p seed id n none h = tt
MoodOf-moved p seed id n (some m) h =
    let c = config-advance p m in
    (
      subst (λ k. 0 < k.epoch_length) (sym c) h.0,
      subst (λ k. IsMoodOf p seed id k (suc n) (Mood.advance p m).0) (sym c)
          (IsMoodOf-advance p seed id m.config n m h.0 h.1),
    )

-- An operation begins.
pub begin_operation-Leads :
    (p : Platform) (seed id : String) (n : ℕ)
    → Leads (IsClocked p seed id n) (IsClocked p seed id (suc n)) (begin_operation p)
begin_operation-Leads p seed id n = record {
  at = λ s h.
      let (returns, ticking, after) = begin_operation-Ends p n s (IsClocked-Ticking h) in
      record {
        clock = ticking.clock ∙ ap some (add_one n);
        mood =
            subst (MoodOf p seed id (suc n)) (sym after) (MoodOf-moved p seed id n s.mood h.mood);
      };
}

-- The parts of a session that the clock is about.
record SameClock (s t : Session) : Type 0 where
  logical_tick : t.logical_tick ≡ s.logical_tick
  mood : t.mood ≡ s.mood

not_allowed : false ≢ true
not_allowed e = cc

SameClock-step : {s t : Session} → Step untimed s t → SameClock s t
SameClock-step (mood q p) = absurd (not_allowed q)
SameClock-step (tick q n) = absurd (not_allowed q)
SameClock-step (log _ _) = record { logical_tick = refl; mood = refl }
SameClock-step (hide _ _ _ _) = record { logical_tick = refl; mood = refl }
SameClock-step (give_back _ _ _ _ _) = record { logical_tick = refl; mood = refl }
SameClock-step (give_all_back _ _) = record { logical_tick = refl; mood = refl }
SameClock-step (release _) = record { logical_tick = refl; mood = refl }
SameClock-step (schedule _ _ _) = record { logical_tick = refl; mood = refl }
SameClock-step (cancel _) = record { logical_tick = refl; mood = refl }
SameClock-step (advance _) = record { logical_tick = refl; mood = refl }
SameClock-step (cache _ _ _) = record { logical_tick = refl; mood = refl }
SameClock-step (stats _) = record { logical_tick = refl; mood = refl }
SameClock-step (occur _ _) = record { logical_tick = refl; mood = refl }
SameClock-step (sleep _) = record { logical_tick = refl; mood = refl }
SameClock-step (warn _) = record { logical_tick = refl; mood = refl }
SameClock-step backend = record { logical_tick = refl; mood = refl }

SameClock-Reach : {s t : Session} → Reach untimed s t → SameClock s t
SameClock-Reach here = record { logical_tick = refl; mood = refl }
SameClock-Reach (next r st) =
    let a = SameClock-Reach r in
    let b = SameClock-step st in
    record { logical_tick = b.logical_tick ∙ a.logical_tick; mood = b.mood ∙ a.mood }

-- What moves neither the clock nor the mood keeps them.
pub Keeps-untimed :
    {A : Type 0} (p : Platform) (seed id : String) (n : ℕ) (m : Exec Session A)
    → ((o : Session) → Keeps (Reach untimed o) m)
    → Keeps (IsClocked p seed id n) m
Keeps-untimed p seed id n m k = record {
  at = λ s h.
      let same = SameClock-Reach ((k s).at s here) in
      record {
        clock = same.logical_tick ∙ h.clock;
        mood = subst (MoodOf p seed id n) (sym same.mood) h.mood;
      };
}
