-- ===== src/StaleCache/Newest.antt =====
-- The oldest entries that the total limit of core/stale_cache.py in src/dogdb dropped make no
-- difference to what an entry that is added later leaves.
use dogdb.Prelude.{
  ℕ, ◌+◌, ◌-◌, ◌≤◌, ◌<◌, ◌≡◌, sym, ap, ◌∙◌, true, false, List, [], ◌∷◌, ◌++◌, ltb, ltb→lt, length,
  length-append, arith, Bool-cases, inl, inr,
}
use dogdb.StaleCache.{StaleEntry, key_eq}
use dogdb.StaleCache.Trimmed.{count, make_room, newest, enough_room, newest-cons, newest-few}
use dogdb.StaleCache.Recent.{
  not_below, count-cons_same, count-cons_other, make_room-other, make_room-head, length-drop_of,
}

module _ (limit total : ℕ) (pos : 0 < limit) (e : StaleEntry) where
  -- An entry, `x`, in front of as many as the total limit.
  newest-room_other :
      (x : StaleEntry) (l : List StaleEntry)
      → key_eq x.key e.key ≡ false
      → total ≤ length l
      → count e.key l ≤ limit
      → newest total (make_room e.key limit l ++ e ∷ [])
        ≡ newest total (make_room e.key limit (x ∷ l) ++ e ∷ [])
  newest-room_other x l other many few =
      let rest = make_room e.key limit l ++ e ∷ [] in
      newest-cons total x rest (
        omega (
          arith,
          pos,
          many,
          few,
          length-append {0} (make_room e.key limit l) (e ∷ []),
          length-drop_of e.key (count e.key l + 1 - limit) l,
        ))
      ∙ ap (λ m. newest total (m ++ e ∷ [])) (sym (make_room-other e.key limit x l other))

  newest-room_same :
      (x : StaleEntry) (l : List StaleEntry)
      → key_eq x.key e.key ≡ true
      → total ≤ length l
      → count e.key (x ∷ l) ≤ limit
      → newest total (make_room e.key limit l ++ e ∷ [])
        ≡ newest total (make_room e.key limit (x ∷ l) ++ e ∷ [])
  newest-room_same x l same many few =
      let c = count-cons_same e.key x l same in
      let room =
        ap (λ m. newest total (m ++ e ∷ []))
          (sym (enough_room e.key limit l (omega (arith, c, few)))) in
      room ∙ elim (Bool-cases (ltb (count e.key l + 1) limit)) [
        | inl free ↦
            newest-cons total x (l ++ e ∷ []) (omega (arith, many, length-append {0} l (e ∷ [])))
            ∙ ap (λ m. newest total (m ++ e ∷ []))
                (enough_room e.key limit (x ∷ l) (omega (arith, c, ltb→lt _ _ free)))
        | inr full ↦
            ap (λ m. newest total (m ++ e ∷ []))
              (sym
                (make_room-head e.key limit x l same (omega (arith, c, few, not_below _ _ full))))
      ]

  -- It does not matter whether the total limit was applied before.
  pub newest-room :
      (l : List StaleEntry)
      → count e.key l ≤ limit
      → newest total (make_room e.key limit (newest total l) ++ e ∷ [])
        ≡ newest total (make_room e.key limit l ++ e ∷ [])
  newest-room [] few =
      ap (λ m. newest total (make_room e.key limit m ++ e ∷ []))
        (sym (newest-few total [] (omega arith)))
  newest-room (x ∷ l) few = elim (Bool-cases (ltb total (length (x ∷ l)))) [
    | inr fits ↦
        ap (λ m. newest total (make_room e.key limit m ++ e ∷ []))
          (sym (newest-few total (x ∷ l) (not_below _ _ fits)))
    | inl over ↦
        let many : total ≤ length l = omega (arith, ltb→lt _ _ over) in
        let shorter =
          ap (λ m. newest total (make_room e.key limit m ++ e ∷ []))
            (sym (newest-cons total x l many)) in
        elim (Bool-cases (key_eq x.key e.key)) [
          | inl same ↦
              shorter
              ∙ newest-room l (omega (arith, few, count-cons_same e.key x l same))
              ∙ newest-room_same x l same many few
          | inr other ↦
              let less : count e.key l ≤ limit =
                omega (arith, few, count-cons_other e.key x l other) in
              shorter ∙ newest-room l less ∙ newest-room_other x l other many less
        ]
  ]
