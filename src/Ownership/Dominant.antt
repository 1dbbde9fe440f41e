-- ===== src/Ownership/Dominant.antt =====
-- The counts behind `dominant_contributor` of layer4/ownership_ingester.py.
use live_system_intelligence.Prelude.{
  ℕ, ◌+◌, String, none, List, [], ◌∷◌, ◌==◌, ==_iff, string_eq, if◌then◌else◌, ◌≡◌, ◌∙◌, arith,
}
use live_system_intelligence.Prelude.Dict.{Dict, lookup, insert, lookup-insert}
use live_system_intelligence.Ownership.Contributor.{number_of, count_emails}

-- How often an address stands in the lines.
abbrev pub occurrences : String → List String → ℕ
occurrences email [] = 0
occurrences email (line ∷ lines) = (if email == line then 1 else 0) + occurrences email lines

-- Each entry holds its key's number, and no key stands twice.
abbrev pub Tallied : (String → ℕ) → Dict String ℕ → Type 0
Tallied f [] = Unit
Tallied f ((email, n) ∷ counter) = (n ≡ f email) × (lookup email counter ≡ none) × Tallied f counter

abbrev one_more : String → (String → ℕ) → String → ℕ
one_more email f other = f other + (if other == email then 1 else 0)

Tallied-cong :
    (f g : String → ℕ) (counter : Dict String ℕ)
    → ((email : String) → f email ≡ g email)
    → Tallied f counter
    → Tallied g counter
Tallied-cong f g [] same h = tt
Tallied-cong f g ((email, n) ∷ counter) same (e, fresh, h) =
    (e ∙ same email, fresh, Tallied-cong f g counter same h)

one_more-Tallied :
    (email : String) (f : String → ℕ) (counter : Dict String ℕ)
    → lookup email counter ≡ none
    → Tallied f counter
    → Tallied (one_more email f) counter
unfolding lookup
one_more-Tallied email f [] new h = tt
one_more-Tallied email f ((other, n) ∷ counter) new (e, fresh, h) =
    ground (arith, one_more-Tallied email f counter, ==_iff email other, ==_iff other email)

insert-Tallied :
    (email : String) (f : String → ℕ) (counter : Dict String ℕ) (n : ℕ)
    → n ≡ f email + 1
    → Tallied f counter
    → Tallied (one_more email f) (insert email n counter)
unfolding insert lookup
insert-Tallied email f [] n e h = ground (arith, ==_iff email email)
insert-Tallied email f ((other, m) ∷ counter) n e (o, fresh, h) = ground (
  arith,
  insert-Tallied email f counter n e h,
  one_more-Tallied email f counter,
  lookup-insert other email n counter,
  ==_iff email other,
  ==_iff other email,
  ==_iff email email,
)

number_of-insert :
    (email other : String) (n : ℕ) (counter : Dict String ℕ)
    → number_of (lookup other (insert email n counter))
      ≡ (if other == email then n else number_of (lookup other counter))
number_of-insert email other n counter = rw lookup-insert (ground arith)

-- The counter of the lines holds each address's number of lines.
pub count_emails-Tallied :
    (emails : List String) (f : String → ℕ) (counter : Dict String ℕ)
    → Tallied f counter
    → ((email : String) → number_of (lookup email counter) ≡ f email)
    → Tallied (λ email. occurrences email emails + f email) (count_emails counter emails)
      × ((email : String)
          → number_of (lookup email (count_emails counter emails))
            ≡ occurrences email emails + f email)
unfolding count_emails
count_emails-Tallied [] f counter h l =
    (Tallied-cong f _ counter (λ email. omega arith) h, λ email. omega (arith, l email))
count_emails-Tallied (line ∷ lines) f counter h l =
    let n = number_of (lookup line counter) + 1 in
    let ih =
      count_emails-Tallied lines (one_more line f) (insert line n counter)
        (insert-Tallied line f counter n (omega (arith, l line)) h)
        (λ email.
          ground
            (arith, number_of-insert line email n counter, l email, l line, ==_iff email line)) in
    (
      Tallied-cong (λ email. occurrences email lines + one_more line f email) _ _
          (λ email. omega arith) ih.0,
      λ email. omega (arith, ih.1 email),
    )
