-- ===== src/Ownership/Contributor.antt =====
-- layer4/ownership_ingester.py: the e-mail address that `dominant_contributor` picks from the lines
-- of `git blame`. `lower` is Python's `str.lower`.
use live_system_intelligence.Prelude.{
  ℕ, ◌+◌, String, Bool, not, ◌||◌, Option, none, some, List, [], ◌∷◌, select, ltb, string_eq,
  if◌then◌else◌,
}
use live_system_intelligence.Prelude.Dict.{Dict, lookup, insert}
use live_system_intelligence.Text.{occurs}

abbrev pub number_of : Option ℕ → ℕ
number_of none = 0
number_of (some n) = n

-- `Counter(emails)`, from the counts so far.
unfoldable pub count_emails : Dict String ℕ → List String → Dict String ℕ
unfolding insert lookup
count_emails counter [] = counter
count_emails counter (email ∷ emails) =
    count_emails (insert email (number_of (lookup email counter) + 1) counter) emails

abbrev pub is_bot : (String → String) → String → Bool
is_bot lower email = occurs "bot" (lower email) || occurs "noreply" (lower email)

-- The first entry with the largest count, from the best so far.
abbrev pub best : String × ℕ → Dict String ℕ → String × ℕ
best (email, n) [] = (email, n)
best (email, n) ((other, m) ∷ counter) = best (if ltb n m then (other, m) else (email, n)) counter

abbrev pub most_common : Dict String ℕ → Option String
most_common [] = none
most_common (entry ∷ counter) = some (best entry counter).0

abbrev pub people : (String → String) → Dict String ℕ → Dict String ℕ
people lower counter = select (λ e. not (is_bot lower e.0)) counter

abbrev pub or_any : Dict String ℕ → Option String → Option String
or_any counter none = most_common counter
or_any counter (some email) = some email

-- The most frequent address of a person, or of a bot if there are only bots.
unfoldable pub dominant : (String → String) → List String → Option String
unfolding count_emails
dominant lower emails =
    let counter = count_emails [] emails in or_any counter (most_common (people lower counter))
