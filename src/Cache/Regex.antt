-- ===== src/Cache/Regex.antt =====
-- The part of ECMAScript's regular expressions that the worker's two patterns use: a backtracking
-- matcher, as the language defines `String.prototype.match` on a pattern of the form /^...$/.
pub mod Complete
pub mod Meaning
use nearby_payments_api.Base.{
  ℕ, zero, suc, Bool, true, Option, none, some, List, [], ◌∷◌, ◌++◌, Text, if◌then◌else◌, ◌==◌,
}

pub data Regex : Type 0 where
  -- no code unit
  nothing : Regex
  -- one code unit of a class
  one_of : (ℕ → Bool) → Regex
  seq : Regex → Regex → Regex
  alt : Regex → Regex → Regex
  -- `c{n}`
  times : ℕ → (ℕ → Bool) → Regex
  -- `c+`, greedy
  plus : (ℕ → Bool) → Regex
  -- `( )`
  group : Regex → Regex

-- A literal text.
unfoldable pub literal : Text → Regex
literal [] = nothing
literal (a ∷ s) = seq (one_of (λ c. a == c)) (literal s)

-- One way to match a beginning of the input: what is matched, the captures, and what is left.
pub record Way : Type 0 where
  pub matched : Text
  pub captures : List Text
  pub rest : Text

abbrev pub prepend : ℕ → Way → Way
prepend a w = record w { matched = a ∷ w.matched }

abbrev pub follow : Way → Way → Way
follow v w = record {
  matched = v.matched ++ w.matched;
  captures = v.captures ++ w.captures;
  rest = w.rest;
}

abbrev pub capture : Way → Way
capture w = record w { captures = w.matched ∷ w.captures }

abbrev pub each {ℓ κ} : {A : Type ℓ} {B : Type κ} → (A → B) → List A → List B
each f [] = []
each f (a ∷ l) = f a ∷ each f l

-- The ways of the elements one after the other.
abbrev pub in_turn : (Way → List Way) → List Way → List Way
in_turn f [] = []
in_turn f (w ∷ ws) = f w ++ in_turn f ws

abbrev pub done : Text → Way
done s = record { matched = []; captures = []; rest = s }

pub one_way : (ℕ → Bool) → Text → List Way
one_way c [] = []
one_way c (a ∷ s) = if c a then prepend a (done s) ∷ [] else []

pub times_ways : ℕ → (ℕ → Bool) → Text → List Way
times_ways zero c s = done s ∷ []
times_ways (suc n) c [] = []
times_ways (suc n) c (a ∷ s) =
    let more = times_ways n c s in if c a then each (prepend a) more else []

-- As many code units as there are first, then fewer.
pub plus_ways : (ℕ → Bool) → Text → List Way
plus_ways c [] = []
plus_ways c (a ∷ s) =
    let more = plus_ways c s in if c a then each (prepend a) more ++ prepend a (done s) ∷ [] else []

-- Every way to match a beginning of the input, in the order in which backtracking tries them.
unfoldable pub ways : Regex → Text → List Way
unfolding one_way times_ways plus_ways
ways nothing s = done s ∷ []
ways (one_of c) s = one_way c s
ways (seq r q) s = in_turn (λ v. each (follow v) (ways q v.rest)) (ways r s)
ways (alt r q) s = ways r s ++ ways q s
ways (times n c) s = times_ways n c s
ways (plus c) s = plus_ways c s
ways (group r) s = each capture (ways r s)

-- The first way that `$` lets through.
abbrev pub to_the_end : List Way → Option (List Text)
to_the_end [] = none
to_the_end (w ∷ ws) = elim w.rest [ [] ↦ some w.captures | _ ∷ _ ↦ to_the_end ws ]

-- The captures of the first match of the whole input.
unfoldable pub find_captures : Regex → Text → Option (List Text)
unfolding ways
find_captures r s = to_the_end (ways r s)

-- `s.match(/^r$/)`: null, or the array of the whole match and the captures.
unfoldable pub match : Regex → Text → Option (List Text)
match r s = elim (find_captures r s) [ none ↦ none | some cs ↦ some (s ∷ cs) ]
