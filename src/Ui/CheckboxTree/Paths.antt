-- ===== src/Ui/CheckboxTree/Paths.antt =====
-- How deep the options of frontend/astiango-hub-ui/src/components/ui/checkbox/CheckboxTree.vue stand,
-- and that `findParentOption` goes up.
use astiango_hub.Common.{
  ℕ, zero, suc, ◌+◌, ◌<◌, ◌≤◌, String, Bool, true, false, ◌≡◌, ◌≢◌, refl, sym, ap, ◌∙◌, ◌⊎◌, inl,
  inr, none, some, ◌++◌, str_eq, length, length-append, All, Distinct, Bool-cases, Option-cases,
  eq_iff, eq_refl, arith, if◌then◌else◌,
}
use mathlib.Core.Path.{subst}
use mathlib.Core.Option.{some-injective}
use astiango_hub.Common.Arrays.Distinct.{
  All-left, All-right, Distinct-left, Distinct-right, Distinct-across,
}
use astiango_hub.Ui.CheckboxTree.{
  Options, option, nil, cons, Found, or_else, has_child, find_parent_option, ids,
}

abbrev below : ℕ → ℕ → ℕ
below zero r = r
below (suc n) r = suc (suc n)

-- 1 for an option at the top, 2 for its children; 0 for an identifier that no option has.
unfoldable pub rank : Options → String → ℕ
rank nil t = 0
rank (cons (option i value checked cs) os) t =
    if str_eq i t then 1 else below (rank cs t) (rank os t)

below-pos : (n r : ℕ) → 0 < n → below n r ≡ suc n
below-pos zero r h = absurd (omega arith)
below-pos (suc n) r h = refl

below-≤ : (n r : ℕ) → below n r ≤ suc n + r
below-≤ zero r = omega arith
below-≤ (suc n) r = omega arith

below-os : (n r : ℕ) → 0 < r → 0 < below n r
below-os zero r h = h
below-os (suc n) r h = omega arith

zero-or-pos : (n : ℕ) → (n ≡ 0) ⊎ (0 < n)
zero-or-pos zero = inl refl
zero-or-pos (suc n) = inr (omega arith)

module _ (i value : String) (checked : Bool) (cs os : Options) (t : String) where
  rank-here : str_eq i t ≡ true → rank (cons (option i value checked cs) os) t ≡ 1
  unfolding rank
  rank-here same = rw same refl

  rank-past :
      str_eq i t ≡ false
      → rank (cons (option i value checked cs) os) t ≡ below (rank cs t) (rank os t)
  unfolding rank
  rank-past differ = rw differ refl

  has_child-past :
      str_eq i t ≡ false → has_child (cons (option i value checked cs) os) t ≡ has_child os t
  unfolding has_child
  has_child-past differ = rw differ refl

  -- The three places where a parent is found.
  parent-here :
      has_child cs t ≡ true
      → find_parent_option (cons (option i value checked cs) os) t
        ≡ some (record { id = i; children = cs })
  unfolding find_parent_option
  parent-here is_child = rw is_child refl

  parent-past :
      has_child cs t ≡ false
      → find_parent_option (cons (option i value checked cs) os) t
        ≡ or_else (find_parent_option cs t) (find_parent_option os t)
  unfolding find_parent_option
  parent-past none_here = rw none_here refl

rank-nil : (t : String) → rank nil t ≡ 0
unfolding rank
rank-nil t = refl

has_child-nil : (t : String) → has_child nil t ≡ false
unfolding has_child
has_child-nil t = refl

find_parent_option-nil : (t : String) → find_parent_option nil t ≡ none
unfolding find_parent_option
find_parent_option-nil t = refl

rank-absent : (os : Options) (t : String) → All (λ k. t ≢ k) (ids os) → rank os t ≡ 0
unfolding ids
rank-absent nil t h = rank-nil t
rank-absent (cons (option i value checked cs) os) t (n, h) = elim (Bool-cases (str_eq i t)) [
  | inl same ↦ absurd (n (sym ((eq_iff i t).0 same)))
  | inr differ ↦
      rank-past i value checked cs os t differ
      ∙ rw
          (
            rank-absent cs t (All-left _ (ids cs) (ids os) h),
            rank-absent os t (All-right _ (ids cs) (ids os) h),
          )
          refl
]

-- What holds of the identifiers holds of one that has a rank.
rank-All : (P : String → Type 0) (os : Options) (t : String) → All P (ids os) → 0 < rank os t → P t
unfolding ids
rank-All P nil t h pos = absurd (omega (arith, rank-nil t, pos))
rank-All P (cons (option i value checked cs) os) t (here, h) pos = elim (Bool-cases (str_eq i t)) [
  | inl same ↦ subst P ((eq_iff i t).0 same) here
  | inr differ ↦
      let pos' : 0 < below (rank cs t) (rank os t) =
        rw (rank-past i value checked cs os t differ) at pos in
      elim (zero-or-pos (rank cs t)) [
        | inl out ↦ rank-All P os t (All-right P (ids cs) (ids os) h) (rw out at pos')
        | inr inside ↦ rank-All P cs t (All-left P (ids cs) (ids os) h) inside
      ]
]

pub rank-≤ : (os : Options) (t : String) → rank os t ≤ length (ids os)
unfolding ids
rank-≤ nil t = omega (arith, rank-nil t)
rank-≤ (cons (option i value checked cs) os) t = elim (Bool-cases (str_eq i t)) [
  | inl same ↦ rw (rank-here i value checked cs os t same) (omega arith)
  | inr differ ↦ rw (rank-past i value checked cs os t differ) (
      omega (
        arith,
        below-≤ (rank cs t) (rank os t),
        rank-≤ cs t,
        rank-≤ os t,
        length-append (ids cs) (ids os),
      ))
]

has_child-rank : (cs : Options) (t : String) → has_child cs t ≡ true → 0 < rank cs t
has_child-rank nil t h = absurd (cc (has_child-nil t, h))
has_child-rank (cons (option i value checked cs) os) t h = elim (Bool-cases (str_eq i t)) [
  | inl same ↦ rw (rank-here i value checked cs os t same) (omega arith)
  | inr differ ↦
      let beside = has_child-rank os t (sym (has_child-past i value checked cs os t differ) ∙ h) in
      rw (rank-past i value checked cs os t differ) (below-os (rank cs t) (rank os t) beside)
]

module _ (i value : String) (checked : Bool) (cs os : Options) (t : String) where
  rank-inside :
      rank cs i ≡ 0 → 0 < rank cs t → rank (cons (option i value checked cs) os) t ≡ suc (rank cs t)
  rank-inside own inside = elim (Bool-cases (str_eq i t)) [
    | inl same ↦ absurd (omega (arith, rw (sym ((eq_iff i t).0 same)) at inside, own))
    | inr differ ↦
        rank-past i value checked cs os t differ ∙ below-pos (rank cs t) (rank os t) inside
  ]

  rank-beside :
      rank os i ≡ 0
      → rank cs t ≡ 0
      → 0 < rank os t
      → rank (cons (option i value checked cs) os) t ≡ rank os t
  rank-beside own outside beside = elim (Bool-cases (str_eq i t)) [
    | inl same ↦ absurd (omega (arith, rw (sym ((eq_iff i t).0 same)) at beside, own))
    | inr differ ↦ rank-past i value checked cs os t differ ∙ ap (λ n. below n (rank os t)) outside
  ]

  -- What stands below an option does not stand beside it.
  rank-apart : Distinct (ids cs ++ ids os) → 0 < rank os t → rank cs t ≡ 0
  rank-apart distinct beside = elim (zero-or-pos (rank cs t)) [
    | inl outside ↦ outside
    | inr inside ↦ absurd (
        omega (
          arith,
          beside,
          rank-absent os t (rank-All _ cs t (Distinct-across (ids cs) (ids os) distinct) inside),
        ))
  ]

-- The parent that is found is an option, and stands higher.
pub find_parent_option-rank :
    (os : Options) (t : String) (p : Found)
    → Distinct (ids os)
    → find_parent_option os t ≡ some p
    → (0 < rank os p.id) × (rank os p.id < rank os t)
unfolding ids
find_parent_option-rank nil t p distinct e = absurd (cc (find_parent_option-nil t, e))
find_parent_option-rank (cons (option i value checked cs) os) t p (own, distinct) e =
    let in_cs = rank-absent cs i (All-left _ (ids cs) (ids os) own) in
    let in_os = rank-absent os i (All-right _ (ids cs) (ids os) own) in
    elim (Bool-cases (has_child cs t)) [
      | inl is_child ↦
          let same : record { id = i; children = cs } ≡ p =
            some-injective _ p (sym (parent-here i value checked cs os t is_child) ∙ e) in
          let high : rank (cons (option i value checked cs) os) p.id ≡ 1 =
            rw⁻¹ same (rank-here i value checked cs os i (eq_refl i)) in
          let inside = has_child-rank cs t is_child in
          rw (high, rank-inside i value checked cs os t in_cs inside)
            (omega arith, omega (arith, inside))
      | inr no_child ↦
          let past = sym (parent-past i value checked cs os t no_child) in
          elim (Option-cases (find_parent_option cs t)) [
            | inl none_below ↦
                let there : find_parent_option os t ≡ some p =
                  sym (ap (λ o. or_else o (find_parent_option os t)) none_below) ∙ past ∙ e in
                let (high, up) =
                  find_parent_option-rank os t p (Distinct-right (ids cs) (ids os) distinct)
                    there in
                let low : 0 < rank os t = omega (arith, high, up) in
                rw
                  (
                    rank-beside i value checked cs os p.id in_os
                        (rank-apart i value checked cs os p.id distinct high) high,
                    rank-beside i value checked cs os t in_os
                        (rank-apart i value checked cs os t distinct low) low,
                  )
                  (high, up)
            | inr (q, at) ↦
                let same : q ≡ p =
                  some-injective q p
                    (sym (ap (λ o. or_else o (find_parent_option os t)) at) ∙ past ∙ e) in
                let (high, up) =
                  find_parent_option-rank cs t q (Distinct-left (ids cs) (ids os) distinct) at in
                let low : 0 < rank cs t = omega (arith, high, up) in
                let whole = cons (option i value checked cs) os in
                subst (λ (r : Found). (0 < rank whole r.id) × (rank whole r.id < rank whole t)) same
                  (rw
                    (
                      rank-inside i value checked cs os q.id in_cs high,
                      rank-inside i value checked cs os t in_cs low,
                    )
                    (omega (arith, high), omega (arith, up)))
          ]
    ]
