-- ===== src/StaleCache/Window.antt =====
-- One more result in a bounded cache (core/stale_cache.py of src/dogdb): to make room and drop the
-- oldest is to keep what is recent of all.
use dogdb.Prelude.{
  ℕ, ◌+◌, ◌≤◌, ◌<◌, ◌≡◌, refl, sym, ap, ◌∙◌, true, false, List, [], ◌∷◌, ◌++◌, ltb, ltb→lt, lt→ltb,
  length, length-append, arith, Bool-cases, inl, inr,
}
use dogdb.StaleCache.{CacheKey, StaleEntry, key_eq}
use dogdb.StaleCache.Keys.{numbers, key_eq_sound, key_eq_refl}
use dogdb.StaleCache.Entries.{numbers-append}
use dogdb.StaleCache.Trimmed.{count, make_room, enough_room}
use dogdb.StaleCache.Recent.{
  recent, not_below, same_count, count-cons_same, count-recent, make_room-other, make_room-head,
}

count-append_same :
    (k : CacheKey) (l : List StaleEntry) (e : StaleEntry)
    → key_eq e.key k ≡ true
    → count k (l ++ e ∷ []) ≡ count k l + 1
count-append_same k l e h =
    ap length (numbers-append k l e) ∙ rw h (length-append (numbers k l) (e.occurrence ∷ []))

count-append_other :
    (k : CacheKey) (l : List StaleEntry) (e : StaleEntry)
    → key_eq e.key k ≡ false
    → count k (l ++ e ∷ []) ≡ count k l
count-append_other k l e h = ap length (numbers-append k l e) ∙ rw h refl

not_below→ltb : (a b : ℕ) → b ≤ a → ltb a b ≡ false
not_below→ltb a b h = ground arith

recent-cons_kept :
    (limit : ℕ) (e : StaleEntry) (l : List StaleEntry)
    → count e.key l < limit
    → recent limit (e ∷ l) ≡ e ∷ recent limit l
unfolding recent
recent-cons_kept limit e l h = rw (lt→ltb _ _ h) refl

recent-cons_out :
    (limit : ℕ) (e : StaleEntry) (l : List StaleEntry)
    → limit ≤ count e.key l
    → recent limit (e ∷ l) ≡ recent limit l
unfolding recent
recent-cons_out limit e l h = rw (not_below→ltb _ _ h) refl

key_eq-symmetric_false : (a b : CacheKey) → key_eq a b ≡ false → key_eq b a ≡ false
key_eq-symmetric_false a b h = elim (Bool-cases (key_eq b a)) [
  | inr other ↦ other
  | inl same ↦ absurd (cc (h, key_eq_refl a, ap (λ k. key_eq a k) (key_eq_sound b a same)))
]

module _ (limit : ℕ) (pos : 0 < limit) (e : StaleEntry) where
  -- `recent` with one more entry, where `x` has another key.
  recent-append_other :
      (x : StaleEntry) (l : List StaleEntry)
      → key_eq x.key e.key ≡ false
      → recent limit (l ++ e ∷ []) ≡ make_room e.key limit (recent limit l) ++ e ∷ []
      → recent limit (x ∷ (l ++ e ∷ [])) ≡ make_room e.key limit (recent limit (x ∷ l)) ++ e ∷ []
  recent-append_other x l other ih =
      let c = count-append_other x.key l e (key_eq-symmetric_false x.key e.key other) in
      elim (Bool-cases (ltb (count x.key l) limit)) [
        | inl kept ↦
            recent-cons_kept limit x (l ++ e ∷ []) (omega (arith, c, ltb→lt _ _ kept))
            ∙ ap (◌∷◌ x) ih
            ∙ sym (
                ap (λ m. m ++ e ∷ [])
                  (ap (make_room e.key limit) (recent-cons_kept limit x l (ltb→lt _ _ kept))
                    ∙ make_room-other e.key limit x (recent limit l) other))
        | inr out ↦
            recent-cons_out limit x (l ++ e ∷ []) (omega (arith, c, not_below _ _ out))
            ∙ ih
            ∙ ap (λ m. make_room e.key limit m ++ e ∷ [])
                (sym (recent-cons_out limit x l (not_below _ _ out)))
      ]

  -- And where it has the same.
  recent-append_same :
      (x : StaleEntry) (l : List StaleEntry)
      → key_eq x.key e.key ≡ true
      → recent limit (l ++ e ∷ []) ≡ make_room e.key limit (recent limit l) ++ e ∷ []
      → recent limit (x ∷ (l ++ e ∷ [])) ≡ make_room e.key limit (recent limit (x ∷ l)) ++ e ∷ []
  recent-append_same x l same ih =
      let n = same_count x e.key l same in
      let m = same_count x e.key (l ++ e ∷ []) same in
      let c = count-append_same e.key l e (key_eq_refl e.key) in
      let r = count-recent limit e.key l in
      elim (Bool-cases (ltb (count x.key l) limit)) [
        | inr out ↦
            let over = not_below _ _ out in
            recent-cons_out limit x (l ++ e ∷ []) (omega (arith, over, n, m, c))
            ∙ ih
            ∙ ap (λ t. make_room e.key limit t ++ e ∷ []) (sym (recent-cons_out limit x l over))
        | inl in_window ↦
            let below = ltb→lt _ _ in_window in
            let rest =
              ih
              ∙ ap (λ t. t ++ e ∷ [])
                  (sym (enough_room e.key limit (recent limit l) (omega (arith, below, n, r)))) in
            elim (Bool-cases (ltb (count x.key l + 1) limit)) [
              | inl kept ↦
                  recent-cons_kept limit x (l ++ e ∷ []) (omega (arith, n, m, c, ltb→lt _ _ kept))
                  ∙ ap (◌∷◌ x) rest
                  ∙ ap (λ t. t ++ e ∷ [])
                      (enough_room e.key limit (x ∷ recent limit l) (
                        omega (
                          arith,
                          n,
                          r,
                          ltb→lt _ _ kept,
                          count-cons_same e.key x (recent limit l) same,
                        )))
                  ∙ ap (λ t. make_room e.key limit t ++ e ∷ [])
                      (sym (recent-cons_kept limit x l below))
              | inr full ↦
                  recent-cons_out limit x (l ++ e ∷ []) (omega (arith, n, m, c, not_below _ _ full))
                  ∙ rest
                  ∙ ap (λ t. t ++ e ∷ [])
                      (sym (
                        make_room-head e.key limit x (recent limit l) same
                          (omega (arith, n, r, below, not_below _ _ full))))
                  ∙ ap (λ t. make_room e.key limit t ++ e ∷ [])
                      (sym (recent-cons_kept limit x l below))
            ]
      ]

  -- The recent ones with one more are those for which there is room, and the new one.
  pub recent-append :
      (l : List StaleEntry)
      → recent limit (l ++ e ∷ []) ≡ make_room e.key limit (recent limit l) ++ e ∷ []
  unfolding recent
  recent-append [] =
      recent-cons_kept limit e [] pos ∙ ap (λ t. t ++ e ∷ []) (enough_room e.key limit [] pos)
  recent-append (x ∷ l) = elim (Bool-cases (key_eq x.key e.key)) [
    | inl same ↦ recent-append_same x l same (recent-append l)
    | inr other ↦ recent-append_other x l other (recent-append l)
  ]
