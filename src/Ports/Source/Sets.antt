-- ===== src/Ports/Source/Sets.antt =====
-- The sorted targets of parseon-core/src/ports/source.rs hold the same targets as the unsorted ones.
use parseon.Common.{
  ℕ, ◌≡◌, refl, sym, ap, ◌∙◌, ◌↔◌, ◌⊎◌, inl, inr, true, false, List, [], ◌∷◌, In, arith, Bool-cases,
}
use parseon.Common.Eq.{◌==◌, list_eq, nat_eq}
use parseon.Filter.Evaluate.{ltb_list}
use parseon.Ports.Source.{LogTarget, ltb_target, insert_target, sort_dedup}

-- The order of bytes is total.
ltb_list-total : (as' bs : List ℕ) → ltb_list as' bs ≡ false → ltb_list bs as' ≡ false → as' ≡ bs
unfolding ltb_list
ltb_list-total [] [] h k = refl
ltb_list-total [] (b ∷ bs) h k = absurd (ground arith)
ltb_list-total (a ∷ as') [] h k = absurd (ground arith)
ltb_list-total (a ∷ as') (b ∷ bs) h k = ground (arith, ltb_list-total as' bs)

-- Targets that are not ordered either way are one.
ltb_target-total : (t u : LogTarget) → ltb_target t u ≡ false → ltb_target u t ≡ false → t ≡ u
unfolding ltb_target
ltb_target-total t u h k =
    let here : t.address ≡ u.address =
      ltb_list-total t.address u.address (ground arith) (ground arith) in
    let same : (t.address == u.address) ≡ true = (list_eq.test_iff t.address u.address).1 here in
    let same' : (u.address == t.address) ≡ true =
      (list_eq.test_iff u.address t.address).1 (sym here) in
    let none_less : ltb_list t.address u.address ≡ false = ground arith in
    let none_less' : ltb_list u.address t.address ≡ false = ground arith in
    let topic : t.topic0 ≡ u.topic0 =
      ltb_list-total t.topic0 u.topic0 (ground (arith, h, same, none_less))
        (ground (arith, k, same', none_less')) in
    ap (λ a. record { address = a; topic0 = t.topic0 }) here
    ∙ ap (λ b. record { address = u.address; topic0 = b }) topic

pub insert_target_iff :
    (t : LogTarget) (us : List LogTarget) (x : LogTarget)
    → In x (insert_target t us) ↔ ((x ≡ t) ⊎ In x us)
unfolding insert_target
insert_target_iff t [] x =
    ((λ h. elim h [ inl e ↦ inl e | inr n ↦ inr n ]), λ h. elim h [ inl e ↦ inl e | inr n ↦ inr n ])
insert_target_iff t (u ∷ us) x = elim (Bool-cases (ltb_target t u)) [
  | inl before ↦ rw (before) ((λ h. h), λ h. h)
  | inr after ↦ elim (Bool-cases (ltb_target u t)) [
    | inl later ↦
        let rest = insert_target_iff t us x in
        rw (after, later)
          (
            (λ h. elim h [
              | inl e ↦ inr (inl e)
              | inr more ↦ elim (rest.0 more) [ inl e ↦ inl e | inr n ↦ inr (inr n) ]
            ]),
            λ h. elim h [
              | inl e ↦ inr (rest.1 (inl e))
              | inr n ↦ elim n [ inl e ↦ inl e | inr m ↦ inr (rest.1 (inr m)) ]
            ],
          )
    | inr equal ↦
        let same : t ≡ u = ltb_target-total t u after equal in
        rw (after, equal) ((λ h. inr h), λ h. elim h [ inl e ↦ inl (e ∙ same) | inr n ↦ n ])
  ]
]

pub sort_dedup_iff : (ts : List LogTarget) (x : LogTarget) → In x (sort_dedup ts) ↔ In x ts
unfolding sort_dedup
sort_dedup_iff [] x = ((λ h. h), λ h. h)
sort_dedup_iff (t ∷ ts) x =
    let rest = sort_dedup_iff ts x in
    let step = insert_target_iff t (sort_dedup ts) x in
    (
      (λ h. elim (step.0 h) [ inl e ↦ inl e | inr m ↦ inr (rest.0 m) ]),
      λ h. elim h [ inl e ↦ step.1 (inl e) | inr m ↦ step.1 (inr (rest.1 m)) ],
    )
