-- ===== src/Settings/Returns.antt =====
-- parse_auto_return_config (core/auto_return.py of src/dogdb).
use dogdb.Prelude.{◌≤◌, ◌<◌, ◌≡◌, true, false, Option, none, some, [], ◌∷◌, ltb, arith}
use dogdb.Prelude.Int.{pos}
use dogdb.Models.{value_error}
use dogdb.Exec.{Result, ok, err}
use dogdb.Attempt.{◌>>=◌, ◌>>◌, refuse, >>=-eq-ok, refuse-eq-ok}
use dogdb.AutoReturn.{AutoReturnConfig}
use dogdb.Settings.{
  Setting, Entries, Items, nothing, flag, number, mapping, sequence, no_items, item,
  require_positive_int, positive_of_required, get_or, keys, refuse_unknown, one_of,
}

-- The bounds, once they are found.
unfoldable pub parse_bounds : Setting → Setting → Result (Option AutoReturnConfig)
parse_bounds minimum maximum = do
  low ← require_positive_int minimum "auto_return bounds"
  high ← require_positive_int maximum "auto_return bounds"
  refuse (ltb high low) (value_error "auto_return minimum must not exceed maximum")
  ok (some (record { min_operations = low; max_operations = high }))

-- The bounds of a mapping, by its value of `enabled`.
unfoldable pub parse_enabled : Setting → Entries → Result (Option AutoReturnConfig)
unfolding parse_bounds
parse_enabled (flag false) l = ok none
parse_enabled (flag true) l =
    parse_bounds (get_or "min_operations" (number (pos 1)) l)
      (get_or "max_operations" (number (pos 10)) l)
parse_enabled _ l = err (value_error "auto_return.enabled must be a boolean")

unfoldable pub parse_range : Items → Result (Option AutoReturnConfig)
unfolding parse_bounds
parse_range (item minimum (item maximum no_items)) = parse_bounds minimum maximum
parse_range _ = err (value_error "auto_return range must contain exactly two integers")

-- parse_auto_return_config
unfoldable pub parse_auto_return_config : Setting → Result (Option AutoReturnConfig)
unfolding parse_enabled parse_range
parse_auto_return_config nothing = ok none
parse_auto_return_config (flag false) = ok none
parse_auto_return_config (flag true) =
    ok (some (record { min_operations = 1; max_operations = 10 }))
parse_auto_return_config (mapping l) = do
  refuse_unknown (one_of ("enabled" ∷ "min_operations" ∷ "max_operations" ∷ []))
      "unknown auto_return settings: " (keys l)
  parse_enabled (get_or "enabled" (flag true) l) l
parse_auto_return_config (sequence l) = parse_range l
parse_auto_return_config _ =
    err (value_error "auto_return must be a boolean, mapping, or two-item range")

-- The bounds of a configuration are positive and in order.
pub record IsRange (c : AutoReturnConfig) : Type 0 where
  pub positive : 0 < c.min_operations
  pub ordered : c.min_operations ≤ c.max_operations

parse_bounds-IsRange :
    (a b : Setting) {c : AutoReturnConfig} → parse_bounds a b ≡ ok (some c) → IsRange c
unfolding parse_bounds
parse_bounds-IsRange a b h =
    let (low, e, h') = >>=-eq-ok (require_positive_int a "auto_return bounds") _ h in
    let (high, e', h'') = >>=-eq-ok (require_positive_int b "auto_return bounds") _ h' in
    let (u, e'', f) = >>=-eq-ok (refuse (ltb high low) _) _ h'' in
    let ordered = refuse-eq-ok (ltb high low) _ e'' in
    record {
      positive = ground (arith, positive_of_required a "auto_return bounds" e, f);
      ordered = ground (arith, ordered, f);
    }

parse_enabled-IsRange :
    (v : Setting) (l : Entries) {c : AutoReturnConfig} → parse_enabled v l ≡ ok (some c) → IsRange c
unfolding parse_enabled
parse_enabled-IsRange (flag true) l h = parse_bounds-IsRange _ _ h
parse_enabled-IsRange (flag false) l h = cc h
parse_enabled-IsRange v l h = cc h

parse_range-IsRange : (l : Items) {c : AutoReturnConfig} → parse_range l ≡ ok (some c) → IsRange c
unfolding parse_range
parse_range-IsRange (item a (item b no_items)) h = parse_bounds-IsRange a b h
parse_range-IsRange l h = cc h

-- Whatever the setting, if a configuration is made of it, its bounds are positive and in order.
pub parse_auto_return_config-IsRange :
    (v : Setting) {c : AutoReturnConfig} → parse_auto_return_config v ≡ ok (some c) → IsRange c
unfolding parse_auto_return_config
parse_auto_return_config-IsRange (flag true) h = record {
  positive = ground (arith, h);
  ordered = ground (arith, h);
}
parse_auto_return_config-IsRange (mapping l) h =
    let (u, e, h') = >>=-eq-ok (refuse_unknown _ _ (keys l)) _ h in parse_enabled-IsRange _ l h'
parse_auto_return_config-IsRange (sequence l) h = parse_range-IsRange l h
parse_auto_return_config-IsRange v h = cc h
