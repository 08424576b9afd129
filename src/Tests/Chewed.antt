-- ===== src/Tests/Chewed.antt =====
-- CHEW at three rows, of which every value can be made null.
use dogdb.Prelude.{◌≡◌, refl, true, [], ◌∷◌, arith}
use dogdb.Models.{stash, Float, Decimal}
use dogdb.Policy.{utf8_truncate, nullify}
use dogdb.Session.{Config}
use dogdb.Exec.Gives.{Gives}
use dogdb.Faults.OnResult.{chew_choice}
use dogdb.Faults.Chewed.{Chews, chew_choice-Chews}
use dogdb.Tests.{platform, config_of, policy_of, decision, result}

abbrev config : Config
config = record (config_of stash) {
  policy = record (policy_of stash) { chew_profiles = utf8_truncate ∷ nullify ∷ [] };
}

eq_self : (x : Float) → platform.is_finite x ≡ true → platform.eq x x ≡ true
eq_self x h = ground arith

eq_decimal_self :
    (x : Decimal) → platform.is_finite_decimal x ≡ true → platform.eq_decimal x x ≡ true
eq_decimal_self x h = refl

chew_choice-Chews_example :
    Gives (chew_choice platform config decision result) (Chews platform config decision result)
chew_choice-Chews_example =
    chew_choice-Chews platform config decision result eq_self eq_decimal_self
