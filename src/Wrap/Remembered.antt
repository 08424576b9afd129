-- ===== src/Wrap/Remembered.antt =====
-- The stale cache of a session from `wrap` on (proxy/connection.py and core/stale_cache.py of
-- src/dogdb).
use mathlib.Core.Path.{subst}
use dogdb.Prelude.{ℕ, ◌≡◌, sym, List, [], Option, none, some, arith, Option-cases, inl, inr}
use dogdb.Prelude.Dict.{Dict}
use dogdb.Models.{Decision}
use dogdb.Platform.{Platform, IsDigest}
use dogdb.StaleCache
use dogdb.StaleCache.{StaleReadCache}
use dogdb.StaleCache.Refines.{new-Tracks}
use dogdb.Session.{Config, Session}
use dogdb.Exec.{ok}
use dogdb.Settings.Usable.{HasLiterals}
use dogdb.Settings.Probable.{HasUnit}
use dogdb.Engine.{World}
use dogdb.Engine.Calls.{Call, run}
use dogdb.Engine.Cached.{IsCached, IsFilled, FilledIf}
use dogdb.Engine.Cached.Calls.{run-IsCached}
use dogdb.Engine.Cached.History.{IsRemembered, IsRemembered-Tracks}
use dogdb.Wrap.{Connection, Options, Wrapped, wrap}
use dogdb.Wrap.Ready.{wrap-IsReady}

-- The cache that `wrap` makes.
abbrev first_cache : Config → StaleReadCache
first_cache c = StaleCache.new c.include_params c.max_intervention_rows

first_cache-IsCached :
    (c : Config) (s : Session)
    → ((k : StaleReadCache) → s.stale_cache ≡ some k → k ≡ first_cache c)
    → IsCached (first_cache c) s
first_cache-IsCached c s h = elim (Option-cases s.stale_cache) [
  | inl e ↦ subst (FilledIf (first_cache c) s.occurrences) (sym e) tt
  | inr (k, e) ↦
      let filled : IsFilled (first_cache c) s.occurrences (first_cache c) = record {
        given = [];
        tracks = new-Tracks c.include_params c.max_intervention_rows;
        counted = tt;
      } in
      subst (FilledIf (first_cache c) s.occurrences) (sym e)
        (subst (IsFilled (first_cache c) s.occurrences) (sym (h k e)) filled)
]

-- What the cache has, if there is one.
abbrev pub IfCached : (StaleReadCache → Type 0) → Option StaleReadCache → Type 0
IfCached P none = Unit
IfCached P (some k) = P k

IsRemembered-FilledIf :
    (o : StaleReadCache) (m : Dict ℕ) (c : Option StaleReadCache) (d : Decision)
    → FilledIf o m c
    → IfCached (λ k. IsRemembered o.per_fingerprint o.total_limit k d) c
IsRemembered-FilledIf o m none d h = tt
IsRemembered-FilledIf o m (some k) d h = IsRemembered-Tracks o k h.given d h.tracks

-- For `wrap` without `log_path` and with limits (`max_intervention_rows`, `house_limit`) that are not
-- negative, whatever its other arguments: if it makes a session, then whatever calls follow and
-- whichever of them raise: for every decision `history` of the stale cache, if the session has one, raises no
-- `KeyError` and gives all entries of the decision's key in the order of the cache, at most four, of
-- at most 64 in all.
pub wrap-IsRemembered :
    (p : Platform)
    → IsDigest p
    → HasLiterals p
    → HasUnit p
    → (connection : Connection) (o : Options) (w : Wrapped) → wrap p connection o ≡ ok w
    → (b : World) (l : List Call) (d : Decision)
    → IfCached (λ k. IsRemembered 4 64 k d) (run p w.config b l w.session).stale_cache
wrap-IsRemembered p g literals unit connection o w e b l d =
    let ready = wrap-IsReady p literals unit connection o w e in
    let first = first_cache w.config in
    let cached =
      run-IsCached first (omega arith) p w.config b g l w.session
        (first_cache-IsCached w.config w.session ready.cache) in
    let s = run p w.config b l w.session in
    IsRemembered-FilledIf first s.occurrences s.stale_cache d cached
