-- ===== src/Ownership/Winner.antt =====
-- Whom `dominant_contributor` of layer4/ownership_ingester.py picks.
use live_system_intelligence.Prelude.{
  ℕ, ◌+◌, ◌≤◌, ◌<◌, String, true, false, Option, none, some, List, [], ◌∷◌, All, ltb, ◌==◌, ==_iff,
  string_eq, ◌≡◌, ◌∙◌, refl, ap, arith, Bool-cases, inl, inr, ◌⊎◌,
}
use live_system_intelligence.Prelude.Dict.{Dict, lookup}
use live_system_intelligence.Ownership.Contributor.{
  number_of, count_emails, is_bot, best, most_common, people, or_any, dominant,
}
use live_system_intelligence.Ownership.Dominant.{occurrences, Tallied, count_emails-Tallied}

best_keeps : (email : String) (n : ℕ) (counter : Dict String ℕ) → n ≤ (best (email, n) counter).1
best_keeps email n [] = omega arith
best_keeps email n ((other, m) ∷ counter) = elim (Bool-cases (ltb n m)) [
  | inl e ↦ rw e (ground (arith, e, best_keeps other m counter))
  | inr e ↦ rw e (best_keeps email n counter)
]

best-lookup :
    (email : String) (n : ℕ) (counter : Dict String ℕ) (other : String) {m : ℕ}
    → lookup other counter ≡ some m
    → m ≤ (best (email, n) counter).1
unfolding lookup
best-lookup email n [] other e = cc
best-lookup email n ((k, v) ∷ counter) other {m} e = elim (Bool-cases (ltb n v)) [
  | inl b ↦ rw b (ground (arith, e, best_keeps k v counter, best-lookup k v counter other {m = m}))
  | inr b ↦
      rw b (
        ground (arith, e, b, best_keeps email n counter, best-lookup email n counter other {m = m}))
]

best-All {κ} :
    (P : String × ℕ → Type κ) (entry : String × ℕ) (counter : Dict String ℕ)
    → P entry
    → All P counter
    → P (best entry counter)
best-All P entry [] p h = p
best-All P (email, n) ((other, m) ∷ counter) p (q, h) = elim (Bool-cases (ltb n m)) [
  | inl e ↦ rw e (best-All P (other, m) counter q h)
  | inr e ↦ rw e (best-All P (email, n) counter p h)
]

module _ (lower : String → String) where
  abbrev IsPerson : (String → ℕ) → String × ℕ → Type 0
  IsPerson f entry = (entry.1 ≡ f entry.0) × (is_bot lower entry.0 ≡ false)

  people-All :
      (f : String → ℕ) (counter : Dict String ℕ)
      → Tallied f counter
      → All (IsPerson f) (people lower counter)
  people-All f [] h = tt
  people-All f ((email, n) ∷ counter) (e, fresh, h) = elim (Bool-cases (is_bot lower email)) [
    | inl b ↦ rw b (people-All f counter h)
    | inr b ↦ rw b ((e, b), people-All f counter h)
  ]

  lookup-people :
      (email : String) (counter : Dict String ℕ)
      → is_bot lower email ≡ false
      → lookup email (people lower counter) ≡ lookup email counter
  unfolding lookup
  lookup-people email [] person = refl
  lookup-people email ((other, n) ∷ counter) person = elim (Bool-cases (is_bot lower other)) [
    | inl b ↦
        rw b (ground (arith, b, person, lookup-people email counter person, ==_iff email other))
    | inr b ↦ rw b (ground (arith, lookup-people email counter person))
  ]

  -- The address picked, of no bot, and with at least this many lines.
  pub record Wins (emails : List String) (lines : ℕ) (winner : String) : Type 0 where
    pub picked : dominant lower emails ≡ some winner
    pub person : is_bot lower winner ≡ false
    pub most : lines ≤ occurrences winner emails

  number_of-some : (o : Option ℕ) → 0 < number_of o → o ≡ some (number_of o)
  number_of-some none h = absurd (omega arith)
  number_of-some (some n) h = refl

  winner_of :
      (emails : List String) (other : String) (lines : ℕ) (f : String → ℕ) (counts : Dict String ℕ)
      → ((email : String) → f email ≡ occurrences email emails)
      → All (IsPerson f) counts
      → lookup other counts ≡ some lines
      → ((email : String) → most_common counts ≡ some email → dominant lower emails ≡ some email)
      → (winner : String) × Wins emails lines winner
  unfolding lookup
  winner_of emails other lines f [] same h e picks = cc
  winner_of emails other lines f ((email, n) ∷ counts) same (p, h) e picks =
      let top = best (email, n) counts in
      let (counted, person) = best-All (IsPerson f) (email, n) counts p h in
      (
        top.0,
        record {
          picked = picks top.0 refl;
          person = person;
          most = omega (arith, at_most (Bool-cases (other == email)), counted, same top.0);
        },
      )
    where
      at_most :
          ((other == email) ≡ true) ⊎ ((other == email) ≡ false)
          → lines ≤ (best (email, n) counts).1
      at_most (inl here) = ground (arith, e, here, best_keeps email n counts)
      at_most (inr later) = best-lookup email n counts other (rw later at e)

  -- If a person has a line of the file, a person is picked, and with at least as many lines as any.
  pub dominant-Wins :
      (emails : List String) (other : String)
      → is_bot lower other ≡ false
      → 0 < occurrences other emails
      → (winner : String) × Wins emails (occurrences other emails) winner
  unfolding dominant lookup
  dominant-Wins emails other person some_line =
      winner_of emails other (occurrences other emails) (λ email. occurrences email emails + 0)
        (people lower counter) (λ email. omega arith)
        (people-All (λ email. occurrences email emails + 0) counter tallied.0)
        (lookup-people other counter person ∙ entry) (λ email e. ap (or_any counter) e)
    where
      counter : Dict String ℕ
      counter = count_emails [] emails

      tallied :
          Tallied (λ email. occurrences email emails + 0) counter
          × ((email : String) → number_of (lookup email counter) ≡ occurrences email emails + 0)
      tallied = count_emails-Tallied emails (λ email. 0) [] tt (λ email. refl)

      entry : lookup other counter ≡ some (occurrences other emails)
      entry =
          let number : number_of (lookup other counter) ≡ occurrences other emails =
            omega (arith, tallied.1 other) in
          number_of-some (lookup other counter) (omega (arith, number)) ∙ ap some number
