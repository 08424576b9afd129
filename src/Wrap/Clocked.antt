-- ===== src/Wrap/Clocked.antt =====
-- The clock and the mood of a session from `wrap` on (proxy/connection.py and core/mood.py of
-- src/dogdb).
use mathlib.Core.Path.{subst}
use dogdb.Prelude.{ℕ, ◌+◌, ◌≡◌, sym, String, List, Option, some, Option-cases, inl, inr, arith}
use dogdb.Platform.{Platform, IsDigest}
use dogdb.Mood.{MoodEngine}
use dogdb.Mood.Epochs.{IsMoodOf, ticked-IsMoodOf, ticked}
use dogdb.Exec.{ok}
use dogdb.Settings.Usable.{HasLiterals}
use dogdb.Settings.Probable.{HasUnit}
use dogdb.Session.{Session}
use dogdb.Engine.{World, begin_operation}
use dogdb.Engine.Calls.{Call, run}
use dogdb.Engine.Ticks.{begin_operation_ticks}
use dogdb.Engine.Clocked.{IsClocked, IsClocked-Ticking, MoodOf}
use dogdb.Engine.Clocked.Calls.{operations, run-IsClocked}
use dogdb.Wrap.{Connection, Options, Wrapped, wrap}
use dogdb.Wrap.Ready.{IsReady, wrap-IsReady}

first_mood :
    (p : Platform) (w : Wrapped)
    → IsReady p w
    → MoodOf p w.config.seed w.config.session_id 0 w.session.mood
unfolding ticked
first_mood p w ready = elim (Option-cases w.session.mood) [
  | inl e ↦ subst (MoodOf p w.config.seed w.config.session_id 0) (sym e) tt
  | inr (m, e) ↦
      let positive = (ready.weights m e).epochs in
      subst (MoodOf p w.config.seed w.config.session_id 0) (sym e) (
        positive,
        subst (IsMoodOf p w.config.seed w.config.session_id m.config 0) (sym (ready.mood m e))
            (ticked-IsMoodOf p w.config.seed w.config.session_id m.config 0 positive),
      )
]

-- The clock counts the operations, and tells the mood.
pub record TellsTime (p : Platform) (w : Wrapped) (n : ℕ) (s : Session) : Type 0 where
  pub clock : s.logical_tick ≡ some n
  pub mood :
      (m : MoodEngine) → s.mood ≡ some m → IsMoodOf p w.config.seed w.config.session_id m.config n m
  pub begins : (begin_operation p s).0 ≡ ok tt

MoodOf-session :
    (p : Platform) (seed id : String) (n : ℕ) (o : Option MoodEngine)
    → MoodOf p seed id n o
    → (m : MoodEngine) → o ≡ some m
    → IsMoodOf p seed id m.config n m
MoodOf-session p seed id n o h m e = (subst (MoodOf p seed id n) e h).1

-- For `wrap` without `log_path` and with limits (`max_intervention_rows`, `house_limit`) that are not
-- negative, whatever its other arguments: if it makes a session whose clock runs, then whatever calls
-- follow and whichever of them raise: the clock stands at the number of the calls that execute; the mood, if
-- there is one, is that of as many ticks, by the seed and the id of the session alone; and the next
-- operation can begin, so that the assertion that the clock and the mood agree never fails.
pub wrap-TellsTime :
    (p : Platform)
    → IsDigest p
    → HasLiterals p
    → HasUnit p
    → (connection : Connection) (o : Options) (w : Wrapped) → wrap p connection o ≡ ok w
    → w.session.logical_tick ≡ some 0
    → (b : World) (l : List Call) → TellsTime p w (operations l) (run p w.config b l w.session)
wrap-TellsTime p g literals unit connection o w e start b l =
    let ready = wrap-IsReady p literals unit connection o w e in
    let seed = w.config.seed in
    let id = w.config.session_id in
    let s = run p w.config b l w.session in
    let total : operations l + 0 ≡ operations l = omega arith in
    let clocked =
      subst (λ n. IsClocked p seed id n s) total
        (run-IsClocked p w.config b g seed id l 0 w.session
          (record { clock = start; mood = first_mood p w ready })) in
    record {
      clock = clocked.clock;
      mood = MoodOf-session p seed id (operations l) s.mood clocked.mood;
      begins = (begin_operation_ticks p (operations l) s (IsClocked-Ticking clocked)).0;
    }
