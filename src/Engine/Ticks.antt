-- ===== src/Engine/Ticks.antt =====
-- The logical clock of a session (_begin_operation of src/dogdb/proxy/connection.py).
use mathlib.Core.Option
use mathlib.Core.Path.{subst}
use mathlib.Core.Option.{some-injective}
use dogdb.Prelude.{
  ℕ, ◌+◌, ◌≡◌, refl, sym, ap, ◌∙◌, String, true, Option, none, some, List, [], ◌∷◌, ◌==◌, ==_iff,
  if◌then◌else◌,
}
use dogdb.Models.{auto_return, Phase, assertion_error}
use dogdb.Platform.{Platform}
use dogdb.AutoReturn
use dogdb.House
use dogdb.House.{Treasure}
use dogdb.Mood
use dogdb.Mood.{MoodEngine, MoodTransition}
use dogdb.Mood.Epochs.{tick-advance}
use dogdb.Session.{Session, Run}
use dogdb.Exec.{Result, ok, exec, pure, raise, continue, ◌>>=◌}
use dogdb.Engine.{
  take_treasure, log_if_returned, log_return, give_back, return_due, advance_auto_return,
  advance_mood, log_transition, mood_tick, begin_tick, tick_from, begin_operation, due_at,
  transition_of,
}
use dogdb.Faults.Record.{log_event, log_with}

-- `m` returns from every state, and leaves the clock and the mood as they are.
record Leaves {A : Type 0} (m : Run A) : Type 0 where
  pub value : Session → A
  pub returns : (s : Session) → (m s).0 ≡ ok (value s)
  pub tick : (s : Session) → (m s).1.logical_tick ≡ s.logical_tick
  pub mood : (s : Session) → (m s).1.mood ≡ s.mood

continue-ok :
    {A B : Type 0} (r : Result A) (a : A) (f : A → Run B) (s : Session)
    → r ≡ ok a
    → continue r f s ≡ f a s
continue-ok r a f s e = ap (λ r. continue r f s) e

module _ {A B : Type 0} where
  Leaves-bind : (m : Run A) (f : A → Run B) → Leaves m → ((a : A) → Leaves (f a)) → Leaves (m >>= f)
  unfolding ◌>>=◌
  Leaves-bind m f g h = record {
    value = λ s. (h (g.value s)).value (m s).1;
    returns = λ s.
        ap (λ r. r.0) (continue-ok (m s).0 (g.value s) f (m s).1 (g.returns s))
        ∙ (h (g.value s)).returns (m s).1;
    tick = λ s.
        ap (λ r. r.1.logical_tick) (continue-ok (m s).0 (g.value s) f (m s).1 (g.returns s))
        ∙ (h (g.value s)).tick (m s).1
        ∙ g.tick s;
    mood = λ s.
        ap (λ r. r.1.mood) (continue-ok (m s).0 (g.value s) f (m s).1 (g.returns s))
        ∙ (h (g.value s)).mood (m s).1
        ∙ g.mood s;
  }

Leaves-pure : {A : Type 0} (a : A) → Leaves (pure a)
unfolding pure
Leaves-pure a = record { value = λ s. a; returns = λ s. refl; tick = λ s. refl; mood = λ s. refl }

Leaves-take_treasure : (id : String) → Leaves (take_treasure id)
unfolding take_treasure
Leaves-take_treasure id = record {
  value = λ s. (House.return_treasure s.house id).1;
  returns = λ s. refl;
  tick = λ s. refl;
  mood = λ s. refl;
}

module _ (p : Platform) where
  Leaves-log_if_returned :
      (phase : Phase) (o : Option Treasure) → Leaves (log_if_returned p phase o)
  unfolding exec log_if_returned log_return log_event
  Leaves-log_if_returned phase none = record {
    value = λ s. tt;
    returns = λ s. refl;
    tick = λ s. refl;
    mood = λ s. refl;
  }
  Leaves-log_if_returned phase (some t) = record {
    value = λ s. tt;
    returns = λ s. refl;
    tick = λ s. refl;
    mood = λ s. refl;
  }

  Leaves-give_back : (phase : Phase) (id : String) → Leaves (give_back p phase id)
  unfolding give_back
  Leaves-give_back phase id = Leaves-bind (take_treasure id) _ (Leaves-take_treasure id) (λ t.
      Leaves-bind (log_if_returned p phase t) _ (Leaves-log_if_returned phase t)
        (λ u. Leaves-pure t))

  Leaves-return_due : (l : List String) → Leaves (return_due p l)
  unfolding return_due
  Leaves-return_due [] = Leaves-pure tt
  Leaves-return_due (id ∷ l) =
      Leaves-bind (give_back p auto_return id) _ (Leaves-give_back auto_return id)
        (λ u. Leaves-return_due l)

  Leaves-log_transition : (t : Option MoodTransition) → Leaves (log_transition p t)
  unfolding exec log_transition log_with log_event
  Leaves-log_transition none = record {
    value = λ s. tt;
    returns = λ s. refl;
    tick = λ s. refl;
    mood = λ s. refl;
  }
  Leaves-log_transition (some t) = record {
    value = λ s. tt;
    returns = λ s. refl;
    tick = λ s. refl;
    mood = λ s. refl;
  }

-- The clock stands at n, and so does the mood, if there is one.
pub record Ticking (n : ℕ) (s : Session) : Type 0 where
  pub clock : s.logical_tick ≡ some n
  pub agrees : (m : MoodEngine) → s.mood ≡ some m → m.tick ≡ n

-- The session when the treasures that are due are found.
abbrev started : ℕ → Session → Session
started tick s = record s {
  logical_tick = some tick;
  auto_return = Option.map (λ a. (AutoReturn.advance a tick).0) s.auto_return;
}

abbrev set_mood : Option MoodEngine → Session → Session
set_mood o s = record s { mood = o }

-- `m` returns, and then the clock stands at n, and the mood is `o`.
abbrev pub Ends : ℕ → Option MoodEngine → Result (Unit {0}) × Session → Type 0
Ends n o r = (r.0 ≡ ok tt) × Ticking n r.1 × (r.1.mood ≡ o)

-- The mood after a tick.
abbrev pub moved : Platform → Option MoodEngine → Option MoodEngine
moved p o = Option.map (λ m. (Mood.advance p m).0) o

-- The mood after its tick agrees with the clock.
ticks_after :
    (p : Platform) (n : ℕ) (o : Option MoodEngine)
    → ((m : MoodEngine) → o ≡ some m → m.tick ≡ n)
    → (m : MoodEngine) → Option.map (λ m. (Mood.advance p m).0) o ≡ some m
    → m.tick ≡ n + 1
ticks_after p n none h m e = cc e
ticks_after p n (some k) h m e =
    ap (λ m. m.tick) (sym (some-injective _ m e)) ∙ tick-advance p k ∙ ap (λ t. t + 1) (h k refl)

agree_after :
    (o : Option MoodEngine) (n : ℕ)
    → ((m : MoodEngine) → o ≡ some m → m.tick ≡ n)
    → elim o [ none ↦ true | some m ↦ m.tick == n ] ≡ true
agree_after none n h = refl
agree_after (some m) n h = (==_iff m.tick n).1 (h m refl)

module _ (p : Platform) (n : ℕ) where
  mood_tick-Ends :
      (s : Session)
      → s.logical_tick ≡ some (n + 1)
      → ((m : MoodEngine) → s.mood ≡ some m → m.tick ≡ n)
      → Ends (n + 1) (moved p s.mood) (mood_tick p (n + 1) s)
  unfolding exec mood_tick advance_mood
  mood_tick-Ends s h k =
      let after = ticks_after p n s.mood k in
      let t = set_mood (moved p s.mood) s in
      let g = Leaves-log_transition p (transition_of p s.mood) in
      subst
        (λ b.
          Ends (n + 1) (moved p s.mood)
            ((if b then log_transition p (transition_of p s.mood) else raise assertion_error) t))
        (sym (agree_after t.mood (n + 1) after))
        (
          g.returns t,
          record { clock = g.tick t ∙ h; agrees = λ m e. after m (sym (g.mood t) ∙ e) },
          g.mood t,
        )

  begin_tick-Ends :
      (s : Session) → Ticking n s → Ends (n + 1) (moved p s.mood) (begin_tick p (n + 1) s)
  unfolding exec begin_tick advance_auto_return
  begin_tick-Ends s h =
      let due = due_at (n + 1) s.auto_return in
      let g = Leaves-return_due p due in
      let u = started (n + 1) s in
      subst (Ends (n + 1) (moved p s.mood))
        (sym (
          continue-ok (return_due p due u).0 (g.value u) (λ v. mood_tick p (n + 1))
            (return_due p due u).1 (g.returns u)))
        (subst (λ o. Ends (n + 1) (moved p o) (mood_tick p (n + 1) (return_due p due u).1))
          (g.mood u)
          (mood_tick-Ends (return_due p due u).1 (g.tick u)
            (λ m e. h.agrees m (sym (g.mood u) ∙ e))))

pub begin_operation-Ends :
    (p : Platform) (n : ℕ) (s : Session)
    → Ticking n s
    → Ends (n + 1) (moved p s.mood) (begin_operation p s)
unfolding exec begin_operation tick_from
begin_operation-Ends p n s h =
    subst (λ o. Ends (n + 1) (moved p s.mood) (tick_from p o s)) (sym h.clock)
      (begin_tick-Ends p n s h)

-- If the clock of a session runs, and the mood agrees with it, then the start of an operation raises
-- nothing, whatever is due, so that the assertion in it holds; it moves the clock by one, and the mood
-- agrees with it again.
pub begin_operation_ticks :
    (p : Platform) (n : ℕ) (s : Session)
    → Ticking n s
    → ((begin_operation p s).0 ≡ ok tt) × Ticking (n + 1) (begin_operation p s).1
begin_operation_ticks p n s h = let (r, t, m) = begin_operation-Ends p n s h in (r, t)
