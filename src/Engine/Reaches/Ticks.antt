-- ===== src/Engine/Reaches/Ticks.antt =====
-- The start of an operation (proxy/connection.py of src/dogdb) is a sequence of steps.
use dogdb.Prelude.{ℕ, ◌≡◌, true, Option, none, some}
use dogdb.Platform.{Platform}
use dogdb.EventLog.{EventLog}
use dogdb.Mood.{MoodTransition}
use dogdb.Session.{Session}
use dogdb.Exec.{modify}
use dogdb.Exec.Keeps.{Keeps-pure}
use dogdb.Engine.{
  begin_operation, tick_from, begin_tick, mood_tick, advance_auto_return, advance_mood,
  log_transition, mood_event,
}
use dogdb.Engine.Step.{Part, next, Step, IsPlain}
use dogdb.Engine.Reaches.{Reaches, reach_rules}
use dogdb.Engine.Reaches.Returns.{Reaches-return_due}

IsPlain-mood : (p : Platform) (t : MoodTransition) (log : EventLog) → IsPlain (mood_event p t log)
IsPlain-mood p t log = record { whole = tt; not_return = λ e. cc; not_stash = λ e. cc }

module _ {part : Part} {o : Session} where
  Reaches-advance_auto_return : (n : ℕ) → Reaches part o (advance_auto_return n)
  unfolding advance_auto_return
  Reaches-advance_auto_return n = record { at = λ s r. next r (Step.advance n) }

  Reaches-log_transition :
      (p : Platform) (t : Option MoodTransition) → Reaches part o (log_transition p t)
  unfolding log_transition
  Reaches-log_transition p none = Keeps-pure tt
  Reaches-log_transition p (some t) = search (reach_rules, IsPlain-mood) depth 12

module _ {part : Part} (q : part.ticks ≡ true) {o : Session} where
  Reaches-advance_mood : (p : Platform) → Reaches part o (advance_mood p)
  unfolding advance_mood
  Reaches-advance_mood p = record { at = λ s r. next r (Step.mood q p) }

  Reaches-set_tick : (n : ℕ) → Reaches part o (modify (λ s. record s { logical_tick = some n }))
  unfolding modify
  Reaches-set_tick n = record { at = λ s r. next r (Step.tick q n) }

  Reaches-mood_tick : (p : Platform) (n : ℕ) → Reaches part o (mood_tick p n)
  unfolding mood_tick
  Reaches-mood_tick p n =
      search (reach_rules, Reaches-advance_mood, Reaches-log_transition) depth 16

  Reaches-begin_tick : (p : Platform) (n : ℕ) → Reaches part o (begin_tick p n)
  unfolding begin_tick
  Reaches-begin_tick p n =
      search
        (
          reach_rules, Reaches-set_tick, Reaches-advance_auto_return, Reaches-return_due,
          Reaches-mood_tick,
        )
        depth 16

  Reaches-tick_from : (p : Platform) (n : Option ℕ) → Reaches part o (tick_from p n)
  unfolding tick_from
  Reaches-tick_from p none = Keeps-pure tt
  Reaches-tick_from p (some n) = Reaches-begin_tick p _

  pub Reaches-begin_operation : (p : Platform) → Reaches part o (begin_operation p)
  unfolding begin_operation
  Reaches-begin_operation p = search (reach_rules, Reaches-tick_from)
