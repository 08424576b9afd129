-- ===== src/Engine/Reaches.antt =====
-- Every operation of a session is a sequence of steps, whether it returns or raises: the rules for
-- the writes, and for the events and exceptions of core/faults.py in src/dogdb.
pub mod Stash
pub mod Faults
pub mod Returns
pub mod Ticks
pub mod Execute
use dogdb.Prelude.{◌≢◌, String, Bool, Option, none, some, List, ℕ}
use dogdb.Prelude.Dict.{Dict}
use dogdb.Models.{Fault, stash, Decision, ErrorKind}
use dogdb.Platform.{Platform, derived_index}
use dogdb.EventLog.{EventLog, Event, fault_injected, limit_exceeded, decision_evaluated, Detail}
use dogdb.Policy.{FaultTaxonomy, taxonomy_of}
use dogdb.Stats.{StatsTracker}
use dogdb.Session.{Config, Session, Run}
use dogdb.Exec.{modify}
use dogdb.Exec.Keeps.{
  Keeps, Keeps-if, Keeps-option, Keeps-modify, Keeps-bind, Keeps-pure, Keeps-raise, keeps_rules,
}
use dogdb.Engine.Step.{Part, Reach, next, Step, IsPlain}
use dogdb.Faults.Record.{
  log_with, log_event, about, event, limit_event, debug_decision, raise_from_event,
}

-- `m` makes steps only, from any session that `o` reaches.
abbrev pub Reaches : {A : Type 0} → Part → Session → Run A → Type 0
Reaches part o m = Keeps (Reach part o) m

IsPlain-fault :
    (f : Fault) (d : Decision) (id outcome : String) (m : Dict Detail) (t : Option FaultTaxonomy)
    → f ≢ stash
    → IsPlain (about fault_injected d id (some f) outcome m t)
IsPlain-fault f d id outcome m t h = record {
  whole = (tt, (tt, tt, tt, tt, tt, tt));
  not_return = λ e. cc;
  not_stash = λ _ e. h (cc);
}

IsPlain-limit :
    (d : Decision) (id outcome : String) (m : Dict Detail)
    → IsPlain (about limit_exceeded d id none outcome m none)
IsPlain-limit d id outcome m = record {
  whole = (tt, tt, tt, tt, tt, tt);
  not_return = λ e. cc;
  not_stash = λ e. cc;
}

IsPlain-debug :
    (d : Decision) (id outcome : String) (m : Dict Detail)
    → IsPlain (about decision_evaluated d id none outcome m none)
IsPlain-debug d id outcome m = record {
  whole = (tt, tt, tt, tt, tt, tt);
  not_return = λ e. cc;
  not_stash = λ e. cc;
}

module _ {part : Part} {o : Session} where
  pub Reaches-log_event : (e : Event) → IsPlain e → Reaches part o (log_event e)
  unfolding log_event
  Reaches-log_event e plain = record { at = λ s r. next r (Step.log e plain) }

  pub Reaches-log_with :
      (f : EventLog → Event) → ((l : EventLog) → IsPlain (f l)) → Reaches part o (log_with f)
  unfolding log_with
  Reaches-log_with f plain = record { at = λ s r. next r (Step.log (f s.events) (plain s.events)) }

  pub Reaches-set_stats :
      (f : Session → StatsTracker) → Reaches part o (modify (λ s. record s { stats = f s }))
  unfolding modify
  Reaches-set_stats f = record { at = λ s r. next r (Step.stats (f s)) }

  pub Reaches-derived_index :
      (p : Platform) (d : Decision) (tag : String) (size : ℕ)
      → Reaches part o (derived_index p d tag size)
  unfolding derived_index
  Reaches-derived_index p d tag size = search keeps_rules

  pub Reaches-raise_from_event :
      {A : Type 0} (k : ErrorKind) (e : Event) (b : Bool) (n : Option ℕ)
      → Reaches part o (raise_from_event {A = A} k e b n)
  unfolding raise_from_event
  Reaches-raise_from_event k e b n = Keeps-raise _

  pub Reaches-event :
      (p : Platform) (c : Config) (d : Decision) (f : Fault) (outcome : String) (m : Dict Detail)
      → f ≢ stash
      → Reaches part o (event p c d f outcome m)
  unfolding event
  Reaches-event p c d f outcome m h =
      Keeps-option (taxonomy_of c.policy f) _ _ (Keeps-raise _)
        (λ t. search (keeps_rules, Reaches-log_event, IsPlain-fault, Reaches-set_stats) depth 12)

  pub Reaches-limit_event :
      (p : Platform) (c : Config) (d : Decision) (outcome : String) (m : Dict Detail)
      → Reaches part o (limit_event p c d outcome m)
  unfolding limit_event
  Reaches-limit_event p c d outcome m = search (keeps_rules, Reaches-log_event, IsPlain-limit)

  pub Reaches-debug_decision :
      (p : Platform) (c : Config) (d : Decision) (l : List Fault)
      → Reaches part o (debug_decision p c d l)
  unfolding debug_decision
  Reaches-debug_decision p c d l = search (keeps_rules, Reaches-log_event, IsPlain-debug) depth 12

pub ruleset reach_rules = (
  keeps_rules, Reaches-log_event, Reaches-log_with, Reaches-set_stats, Reaches-derived_index,
  Reaches-raise_from_event, Reaches-event, Reaches-limit_event, Reaches-debug_decision,
)
