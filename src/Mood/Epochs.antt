-- ===== src/Mood/Epochs.antt =====
-- The mood of core/mood.py of src/dogdb after any number of ticks.
use native.Mathlib.Nat.{div-eq_of_lt-le, div-add-mod', lt-div-mul-add}
use dogdb.Prelude.{
  ℕ, zero, suc, ◌+◌, ◌*◌, ◌/◌, ◌%◌, ◌<◌, ◌≡◌, refl, sym, ap, ◌∙◌, String, false, if◌then◌else◌,
  ◌==◌, ==_iff, arith, Bool-cases, inl, inr,
}
use dogdb.Platform.{Platform}
use dogdb.Mood.{Mood, MoodConfig, MoodEngine, calm, new, mood_of, advance}

next_multiple : (k e : ℕ) → (k + 1) * e ≡ k * e + e
next_multiple k e = omega arith

nonzero : (n : ℕ) → (n == 0) ≡ false → 0 < n
nonzero n h = ground arith

-- Between two multiples of the length the quotient stays.
div_same : (n e : ℕ) → 0 < e → (suc n % e == 0) ≡ false → suc n / e ≡ n / e
div_same n e h k = sym (
    div-eq_of_lt-le e (omega (arith, div-add-mod' (suc n) e, nonzero (suc n % e) k))
      (omega (arith, lt-div-mul-add {a = suc n} h, next_multiple (suc n / e) e)))

div_zero : (e : ℕ) → 0 < e → 0 / e ≡ 0
div_zero e h = omega (arith, h)

-- The engine after n ticks.
unfoldable pub ticked : Platform → ℕ → MoodEngine → MoodEngine
unfolding advance
ticked p zero m = m
ticked p (suc n) m = (advance p (ticked p n m)).0

-- The mood in an epoch: calm in the first, and then by the epoch's digest.
abbrev pub mood_in : Platform → String → ℕ → Mood
mood_in p key zero = calm
mood_in p key (suc n) = mood_of p key (suc n)

pub record IsMoodOf (p : Platform) (seed session_id : String) (c : MoodConfig) (n : ℕ)
    (m : MoodEngine) : Type 0 where
  pub tick : m.tick ≡ n
  pub state : m.state ≡ mood_in p (new p seed session_id c).derivation_key (n / c.epoch_length)
  pub config : m.config ≡ c
  pub key : m.derivation_key ≡ (new p seed session_id c).derivation_key

positive_of : (q r e n : ℕ) → q * e + r ≡ suc n → r ≡ 0 → 0 < q
positive_of zero r e n h k = absurd (omega (arith, h, k))
positive_of (suc q) r e n h k = omega arith

mood_in-mood_of : (p : Platform) (key : String) (q : ℕ) → 0 < q → mood_in p key q ≡ mood_of p key q
mood_in-mood_of p key zero h = absurd (omega (arith, h))
mood_in-mood_of p key (suc q) h = refl

-- The state after a tick, by what `advance` reads.
abbrev next_state : Platform → ℕ → MoodConfig → String → Mood → Mood
next_state p tick c key state =
    if tick % c.epoch_length == 0 then mood_of p key (tick / c.epoch_length) else state

next_state_lem :
    (p : Platform) (n : ℕ) (c : MoodConfig) (key : String)
    → 0 < c.epoch_length
    → next_state p (suc n) c key (mood_in p key (n / c.epoch_length))
      ≡ mood_in p key (suc n / c.epoch_length)
next_state_lem p n c key h = elim (Bool-cases (suc n % c.epoch_length == 0)) [
  | inl e ↦ rw e (
      sym (
        mood_in-mood_of p key (suc n / c.epoch_length) (
          positive_of (suc n / c.epoch_length) (suc n % c.epoch_length) c.epoch_length n
            (div-add-mod' (suc n) c.epoch_length) ((==_iff _ _).0 e))))
  | inr e ↦ rw e (ap (mood_in p key) (sym (div_same n c.epoch_length h e)))
]

module _ (p : Platform) (m : MoodEngine) where
  pub tick-advance : (advance p m).0.tick ≡ m.tick + 1
  unfolding advance
  tick-advance = elim (Bool-cases ((m.tick + 1) % m.config.epoch_length == 0)) [
    | inl e ↦ rw (advance, e) refl
    | inr e ↦ rw (advance, e) refl
  ]

  pub config-advance : (advance p m).0.config ≡ m.config
  unfolding advance
  config-advance = elim (Bool-cases ((m.tick + 1) % m.config.epoch_length == 0)) [
    | inl e ↦ rw (advance, e) refl
    | inr e ↦ rw (advance, e) refl
  ]

  key-advance : (advance p m).0.derivation_key ≡ m.derivation_key
  unfolding advance
  key-advance = elim (Bool-cases ((m.tick + 1) % m.config.epoch_length == 0)) [
    | inl e ↦ rw (advance, e) refl
    | inr e ↦ rw (advance, e) refl
  ]

  state-advance :
      (advance p m).0.state ≡ next_state p (m.tick + 1) m.config m.derivation_key m.state
  unfolding advance
  state-advance = elim (Bool-cases ((m.tick + 1) % m.config.epoch_length == 0)) [
    | inl e ↦ rw (advance, e) refl
    | inr e ↦ rw (advance, e) refl
  ]

pub add_one : (n : ℕ) → n + 1 ≡ suc n
add_one n = omega arith

pub IsMoodOf-advance :
    (p : Platform) (seed session_id : String) (c : MoodConfig) (n : ℕ) (m : MoodEngine)
    → 0 < c.epoch_length
    → IsMoodOf p seed session_id c n m
    → IsMoodOf p seed session_id c (suc n) (advance p m).0
IsMoodOf-advance p seed session_id c n m h k = record {
  tick = tick-advance p m ∙ ap (λ t. t + 1) k.tick ∙ add_one n;
  state =
      state-advance p m
      ∙ ap (λ t. next_state p t m.config m.derivation_key m.state)
          (ap (λ t. t + 1) k.tick ∙ add_one n)
      ∙ ap (λ d. next_state p (suc n) d m.derivation_key m.state) k.config
      ∙ ap (λ i. next_state p (suc n) c i m.state) k.key
      ∙ ap (λ st. next_state p (suc n) c (new p seed session_id c).derivation_key st) k.state
      ∙ next_state_lem p n c (new p seed session_id c).derivation_key h;
  config = config-advance p m ∙ k.config;
  key = key-advance p m ∙ k.key;
}

-- With a positive epoch length: after n ticks the engine's mood is that of the epoch n / epoch_length,
-- by the session's seed and id alone, and CALM in epoch 0, however the moods in between went; the
-- tick is n, and the configuration and the key are as they were made.
pub ticked-IsMoodOf :
    (p : Platform) (seed session_id : String) (c : MoodConfig) (n : ℕ)
    → 0 < c.epoch_length
    → IsMoodOf p seed session_id c n (ticked p n (new p seed session_id c))
unfolding ticked new
ticked-IsMoodOf p seed session_id c zero h = record {
  tick = refl;
  state = ap (mood_in p (new p seed session_id c).derivation_key) (sym (div_zero c.epoch_length h));
  config = refl;
  key = refl;
}
ticked-IsMoodOf p seed session_id c (suc n) h =
    IsMoodOf-advance p seed session_id c n (ticked p n (new p seed session_id c)) h
      (ticked-IsMoodOf p seed session_id c n h)
