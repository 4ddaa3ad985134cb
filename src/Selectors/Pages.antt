-- ===== src/Selectors/Pages.antt =====
-- What the page matchers select.
use presslint.Common.{
  ℕ, zero, suc, ◌+◌, ◌%◌, ◌≤◌, ◌≡◌, ◌↔◌, inl, inr, some, List, [], ◌∷◌, get_elem?, arith, ◌==◌,
  ==_iff, Bool-cases, true,
}
use presslint.Types.{PageIndex}
use presslint.Selectors.{PageParity, PageMatcher, parity_matches, contains_page, page_matches}

-- Page numbers are one more than page indexes.
abbrev pub Selects : PageMatcher → PageIndex → Type 0
Selects (PageMatcher.parity PageParity.odd) index = (index + 1) % 2 ≡ 1
Selects (PageMatcher.parity PageParity.even) index = (index + 1) % 2 ≡ 0
Selects (PageMatcher.range start end) index = (start ≤ index) × (index ≤ end)
Selects (PageMatcher.set pages) index = (k : ℕ) × (get_elem? pages k ≡ some index)

contains_page→get_elem? :
    (pages : List PageIndex) (index : PageIndex)
    → contains_page pages index ≡ true
    → (k : ℕ) × (get_elem? pages k ≡ some index)
unfolding contains_page
contains_page→get_elem? [] index h = cc
contains_page→get_elem? (p ∷ ps) index h = elim (Bool-cases (p == index)) [
  | inl same ↦ (0, rw ((==_iff p index).0 same))
  | inr other ↦ let (k, e) = contains_page→get_elem? ps index (rw other at h) in (suc k, e)
]

get_elem?→contains_page :
    (pages : List PageIndex) (index k : ℕ)
    → get_elem? pages k ≡ some index
    → contains_page pages index ≡ true
unfolding contains_page
get_elem?→contains_page [] index k e = cc
get_elem?→contains_page (p ∷ ps) index zero e = ground arith
get_elem?→contains_page (p ∷ ps) index (suc k) e =
    ground (arith, get_elem?→contains_page ps index k)

-- A page matcher accepts exactly the pages that it describes: those with an odd or an even page
-- number, those in an inclusive range (none, if it is reversed), those that a list holds.
pub page_matches_iff :
    (m : PageMatcher) (index : PageIndex) → (page_matches m index ≡ true) ↔ Selects m index
unfolding page_matches parity_matches
page_matches_iff (PageMatcher.parity PageParity.odd) index = (ground arith, ground arith)
page_matches_iff (PageMatcher.parity PageParity.even) index = (ground arith, ground arith)
page_matches_iff (PageMatcher.range start end) index = (ground arith, ground arith)
page_matches_iff (PageMatcher.set pages) index =
    (contains_page→get_elem? pages index, λ (k, e). get_elem?→contains_page pages index k e)
