-- ===== src/Cache/Regex/Complete.antt =====
-- The search finds every way through a pattern, so it decides the meaning of the pattern.
use nearby_payments_api.Base.{
  ℕ, zero, suc, ◌≡◌, refl, ◌≢◌, ◌∙◌, ap, Bool, true, some, List, [], ◌∷◌, ◌++◌, Text, arith, All,
  In, here, there, length, append_assoc, append-nil, inl, inr, subst, sym, List-cases,
}
use nearby_payments_api.Cache.Regex.{
  Regex, nothing, one_of, seq, alt, times, plus, group, Way, prepend, follow, capture, each,
  in_turn, one_way, times_ways, plus_ways, ways, to_the_end, find_captures,
}
use nearby_payments_api.Cache.Regex.Meaning.{Matches, IsWay, ways_sound}

In-append_left : {w : Way} {xs : List Way} (ys : List Way) → In w xs → In w (xs ++ ys)
In-append_left ys here = here
In-append_left ys (there h) = there (In-append_left ys h)

In-append_right : {w : Way} (xs : List Way) {ys : List Way} → In w ys → In w (xs ++ ys)
In-append_right [] h = h
In-append_right (x ∷ xs) h = there (In-append_right xs h)

In-each : (f : Way → Way) {w : Way} {ws : List Way} → In w ws → In (f w) (each f ws)
In-each f here = here
In-each f (there h) = there (In-each f h)

In-in_turn :
    (f : Way → List Way) {v : Way} {ws : List Way} (w : Way)
    → In v ws
    → In w (f v)
    → In w (in_turn f ws)
In-in_turn f w here k = In-append_left _ k
In-in_turn f w (there {x} h) k = In-append_right (f x) (In-in_turn f w h k)

abbrev way : Text → List Text → Text → Way
way s cs rest = record { matched = s; captures = cs; rest = rest }

module _ (c : ℕ → Bool) (rest : Text) where
  times_ways-In :
      (n : ℕ) (s : Text)
      → length s ≡ n
      → All (λ a. c a ≡ true) s
      → In (way s [] rest) (times_ways n c (s ++ rest))
  unfolding times_ways
  times_ways-In zero [] e h = here
  times_ways-In zero (a ∷ s) e h = absurd (omega arith)
  times_ways-In (suc n) [] e h = absurd (omega arith)
  times_ways-In (suc n) (a ∷ s) e (p, h) =
      rw p (In-each (prepend a) (times_ways-In n s (omega arith) h))

  plus_ways-In :
      (s : Text) → s ≢ [] → All (λ a. c a ≡ true) s → In (way s [] rest) (plus_ways c (s ++ rest))
  unfolding plus_ways
  plus_ways-In [] n h = absurd (n refl)
  plus_ways-In (a ∷ []) n (p, h) = rw p (In-append_right (each (prepend a) (plus_ways c rest)) here)
  plus_ways-In (a ∷ b ∷ s) n (p, h) =
      let later = plus_ways-In (b ∷ s) (λ q. cc) h in
      rw p (In-append_left _ (In-each (prepend a) later))

-- Every way through the pattern is found.
ways_complete :
    (r : Regex) (s : Text) (cs : List Text) (rest : Text)
    → Matches r s cs
    → In (way s cs rest) (ways r (s ++ rest))
unfolding ways one_way
ways_complete nothing s cs rest (p, q) = rw (p, q) here
ways_complete (one_of c) s cs rest (a, p, e, q) = rw (p, q, e) here
ways_complete (seq r q) s cs rest (s₁, cs₁, s₂, cs₂, p, p', m, m') =
    rw (p, p', append_assoc)
      (In-in_turn (λ v. each (follow v) (ways q v.rest)) (way (s₁ ++ s₂) (cs₁ ++ cs₂) rest)
        (ways_complete r s₁ cs₁ (s₂ ++ rest) m)
        (In-each (follow (way s₁ cs₁ (s₂ ++ rest))) (ways_complete q s₂ cs₂ rest m')))
ways_complete (alt r q) s cs rest (inl m) = In-append_left _ (ways_complete r s cs rest m)
ways_complete (alt r q) s cs rest (inr m) =
    In-append_right (ways r (s ++ rest)) (ways_complete q s cs rest m)
ways_complete (times n c) s cs rest (e, h, q) = rw q (times_ways-In c rest n s e h)
ways_complete (plus c) s cs rest (n, h, q) = rw q (plus_ways-In c rest s n h)
ways_complete (group r) s cs rest (ds, q, m) = rw q (In-each capture (ways_complete r s ds rest m))

to_the_end-In :
    {w : Way} (ws : List Way) → In w ws → w.rest ≡ [] → (ds : List Text) × (to_the_end ws ≡ some ds)
to_the_end-In [] h e = elim h [ ]
to_the_end-In (w ∷ ws) here e = (w.captures, rw e)
to_the_end-In (v ∷ ws) (there h) e = elim (List-cases v.rest) [
  | inl at_end ↦ (v.captures, rw at_end)
  | inr (a, l, more) ↦ rw more (to_the_end-In ws h e)
]

to_the_end-All :
    (P : Way → Type 0) (ws : List Way) (cs : List Text)
    → All P ws
    → to_the_end ws ≡ some cs
    → (w : Way) × P w × (w.rest ≡ []) × (w.captures ≡ cs)
to_the_end-All P [] cs h e = cc
to_the_end-All P (w ∷ ws) cs (p, h) e = elim (List-cases w.rest) [
  | inl at_end ↦ (w, p, at_end, ground arith)
  | inr (a, l, more) ↦ to_the_end-All P ws cs h (ground arith)
]

-- What the search returns are captures of the whole input.
pub find_captures_sound :
    (r : Regex) (s : Text) (cs : List Text) → find_captures r s ≡ some cs → Matches r s cs
unfolding find_captures
find_captures_sound r s cs e =
    let (w, (whole, m), at_end, same) =
      to_the_end-All (IsWay r s) (ways r s) cs (ways_sound r s) e in
    let all : w.matched ≡ s =
      sym (append-nil w.matched) ∙ (ap (λ t. w.matched ++ t) (sym at_end) ∙ whole) in
    subst (λ t. Matches r t cs) all (subst (Matches r w.matched) same m)

-- An input of the pattern is matched.
pub find_captures_complete :
    (r : Regex) (s : Text) (cs : List Text)
    → Matches r s cs
    → (ds : List Text) × (find_captures r s ≡ some ds)
unfolding find_captures
find_captures_complete r s cs m =
    to_the_end-In (ways r s)
      (subst (λ t. In (way s cs []) (ways r t)) (append-nil s) (ways_complete r s cs [] m)) refl
