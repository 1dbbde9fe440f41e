-- ===== src/CodeIngester/Enclosing.antt =====
-- The function that layer1/code_ingester.py takes for the caller at a line.
use live_system_intelligence.Prelude.{
  ℕ, ◌≤◌, ◌<◌, false, Option, none, some, List, [], ◌∷◌, All, leb, leb→le, ◌≡◌, refl, ◌⊎◌, inl, inr,
  arith, Bool-cases,
}
use live_system_intelligence.CodeIngester.{FunctionNode}
use live_system_intelligence.CodeIngester.Parse.{insert_by_line, sorted_by_line, enclosing_from}

abbrev pub Member : FunctionNode → List FunctionNode → Type 0
Member f [] = ⊥
Member f (g ∷ gs) = (f ≡ g) ⊎ Member f gs

-- The lines of the functions ascend, from `low` on.
abbrev Ascending : ℕ → List FunctionNode → Type 0
Ascending low [] = Unit
Ascending low (f ∷ fns) = (low ≤ f.line) × Ascending f.line fns

leb-false : (a b : ℕ) → leb a b ≡ false → b < a
leb-false a b h = ground arith

insert_by_line-Ascending :
    (fn : FunctionNode) (low : ℕ) (fns : List FunctionNode)
    → low ≤ fn.line
    → Ascending low fns
    → Ascending low (insert_by_line fn fns)
insert_by_line-Ascending fn low [] h a = (h, tt)
insert_by_line-Ascending fn low (f ∷ fns) h (hf, a) = elim (Bool-cases (leb fn.line f.line)) [
  | inl e ↦ rw e (h, (leb→le fn.line f.line e, a))
  | inr e ↦
      rw e
        (hf, insert_by_line-Ascending fn f.line fns (omega (arith, leb-false fn.line f.line e)) a)
]

sorted_by_line-Ascending : (fns : List FunctionNode) → Ascending 0 (sorted_by_line fns)
unfolding sorted_by_line
sorted_by_line-Ascending [] = tt
sorted_by_line-Ascending (fn ∷ fns) =
    insert_by_line-Ascending fn 0 (sorted_by_line fns) (omega arith) (sorted_by_line-Ascending fns)

module _ (P : FunctionNode → Type 0) where
  All-insert_by_line :
      (fn : FunctionNode) (fns : List FunctionNode)
      → All P (insert_by_line fn fns)
      → P fn × All P fns
  All-insert_by_line fn [] = λ h. h
  All-insert_by_line fn (f ∷ fns) = elim (Bool-cases (leb fn.line f.line)) [
    | inl e ↦ rw e (λ h. h)
    | inr e ↦ rw e (λ h. let (p, ps) = All-insert_by_line fn fns (h.1) in (p, (h.0, ps)))
  ]

  All-sorted_by_line : (fns : List FunctionNode) → All P (sorted_by_line fns) → All P fns
  unfolding sorted_by_line
  All-sorted_by_line [] h = tt
  All-sorted_by_line (fn ∷ fns) h =
      let (p, ps) = All-insert_by_line fn (sorted_by_line fns) h in (p, All-sorted_by_line fns ps)

Member-insert_by_line :
    (f fn : FunctionNode) (fns : List FunctionNode)
    → Member f (insert_by_line fn fns)
    → (f ≡ fn) ⊎ Member f fns
Member-insert_by_line f fn [] = λ h. h
Member-insert_by_line f fn (g ∷ fns) = elim (Bool-cases (leb fn.line g.line)) [
  | inl e ↦ rw e (λ h. h)
  | inr e ↦ rw e (λ h. elim h [
    | inl q ↦ inr (inl q)
    | inr m ↦ elim (Member-insert_by_line f fn fns m) [ inl q ↦ inl q | inr k ↦ inr (inr k) ]
  ])
]

Member-sorted_by_line :
    (f : FunctionNode) (fns : List FunctionNode) → Member f (sorted_by_line fns) → Member f fns
unfolding sorted_by_line
Member-sorted_by_line f [] h = h
Member-sorted_by_line f (fn ∷ fns) h = elim (Member-insert_by_line f fn (sorted_by_line fns) h) [
  | inl q ↦ inl q
  | inr m ↦ inr (Member-sorted_by_line f fns m)
]

module _ (n : ℕ) where
  -- Of the functions that start at the line or before it, this one starts last.
  abbrev pub IsLast : FunctionNode → FunctionNode → Type 0
  IsLast f g = g.line ≤ n → g.line ≤ f.line

  abbrev pub Encloses : List FunctionNode → Option FunctionNode → Type 0
  Encloses fns none = All (λ g. n < g.line) fns
  Encloses fns (some f) = (f.line ≤ n) × All (IsLast f) fns × Member f fns

  beyond :
      (f : FunctionNode) (low : ℕ) (fns : List FunctionNode)
      → n < low
      → Ascending low fns
      → All (IsLast f) fns
  beyond f low [] h a = tt
  beyond f low (g ∷ fns) h (hg, a) =
      (λ le. absurd (omega (arith, h, hg, le)), beyond f g.line fns (omega (arith, h, hg)) a)

  All-beyond :
      (low : ℕ) (fns : List FunctionNode) → n < low → Ascending low fns → All (λ g. n < g.line) fns
  All-beyond low [] h a = tt
  All-beyond low (g ∷ fns) h (hg, a) =
      (omega (arith, h, hg), All-beyond g.line fns (omega (arith, h, hg)) a)

  -- What the loop gives from a function that starts at the line or before it.
  abbrev Reached : FunctionNode → List FunctionNode → Option FunctionNode → Type 0
  Reached c fns none = ⊥
  Reached c fns (some f) =
      (f.line ≤ n) × (c.line ≤ f.line) × All (IsLast f) fns × ((f ≡ c) ⊎ Member f fns)

  widen :
      (c g : FunctionNode) (fns : List FunctionNode) (o : Option FunctionNode)
      → c.line ≤ g.line
      → Reached g fns o
      → Reached c (g ∷ fns) o
  widen c g fns none h r = absurd r
  widen c g fns (some f) h (le, from, last, m) =
      (le, omega (arith, h, from), (λ x. from, last), inr m)

  enclosing_from-Reached :
      (c : FunctionNode) (fns : List FunctionNode)
      → c.line ≤ n
      → Ascending c.line fns
      → Reached c fns (enclosing_from (some c) n fns)
  unfolding enclosing_from
  enclosing_from-Reached c [] h a = (h, omega arith, tt, inl refl)
  enclosing_from-Reached c (g ∷ fns) h (hg, a) = elim (Bool-cases (leb g.line n)) [
    | inl e ↦ rw e (
        widen c g fns (enclosing_from (some g) n fns) hg
          (enclosing_from-Reached g fns (leb→le g.line n e) a))
    | inr e ↦
        let past = leb-false g.line n e in
        rw e (
          h,
          omega arith,
          (λ le. absurd (omega (arith, past, le)), beyond c g.line fns past a),
          inl refl,
        )
  ]

  weaken :
      (g : FunctionNode) (fns : List FunctionNode) (o : Option FunctionNode)
      → Reached g fns o
      → Encloses (g ∷ fns) o
  weaken g fns none r = absurd r
  weaken g fns (some f) (le, from, last, m) = (le, (λ x. from, last), m)

  enclosing_from-sorted :
      (fns : List FunctionNode) → Ascending 0 fns → Encloses fns (enclosing_from none n fns)
  unfolding enclosing_from
  enclosing_from-sorted [] a = tt
  enclosing_from-sorted (g ∷ fns) (hg, a) = elim (Bool-cases (leb g.line n)) [
    | inl e ↦ rw e (
        weaken g fns (enclosing_from (some g) n fns)
          (enclosing_from-Reached g fns (leb→le g.line n e) a))
    | inr e ↦ let past = leb-false g.line n e in rw e (past, All-beyond g.line fns past a)
  ]

  unsort :
      (fns : List FunctionNode) (o : Option FunctionNode)
      → Encloses (sorted_by_line fns) o
      → Encloses fns o
  unsort fns none h = All-sorted_by_line (λ g. n < g.line) fns h
  unsort fns (some f) (le, last, m) =
      (le, All-sorted_by_line (IsLast f) fns last, Member-sorted_by_line f fns m)

  -- The caller at a line is one of the functions of the file, it starts there or before, and no other that
  -- does so starts later; there is none only where each of them starts after the line.
  pub enclosing_from-Encloses :
      (fns : List FunctionNode) → Encloses fns (enclosing_from none n (sorted_by_line fns))
  enclosing_from-Encloses fns =
      unsort fns (enclosing_from none n (sorted_by_line fns))
        (enclosing_from-sorted (sorted_by_line fns) (sorted_by_line-Ascending fns))
