-- ===== src/Cache/Regex/Meaning.antt =====
-- What a regular expression means, apart from the order of the search; the matcher decides it.
use nearby_payments_api.Base.{
  ℕ, zero, suc, ◌≡◌, refl, ◌≢◌, ◌⊎◌, Bool, true, List, [], ◌∷◌, ◌++◌, Text, All, All-append, length,
  append_assoc, Bool-cases, inl, inr, ap, ◌∙◌,
}
use nearby_payments_api.Cache.Regex.{
  Regex, nothing, one_of, seq, alt, times, plus, group, Way, prepend, follow, capture, each,
  in_turn, one_way, times_ways, plus_ways, ways,
}

-- `s` is one of the texts of the pattern, and `cs` are the captures.
abbrev pub Matches : Regex → Text → List Text → Type 0
Matches nothing s cs = (s ≡ []) × (cs ≡ [])
Matches (one_of c) s cs = (a : ℕ) × (s ≡ a ∷ []) × (c a ≡ true) × (cs ≡ [])
Matches (seq r q) s cs =
    (s₁ : Text) × (cs₁ : List Text) × (s₂ : Text) × (cs₂ : List Text) × (s ≡ s₁ ++ s₂)
    × (cs ≡ cs₁ ++ cs₂)
    × Matches r s₁ cs₁
    × Matches q s₂ cs₂
Matches (alt r q) s cs = Matches r s cs ⊎ Matches q s cs
Matches (times n c) s cs = (length s ≡ n) × All (λ a. c a ≡ true) s × (cs ≡ [])
Matches (plus c) s cs = (s ≢ []) × All (λ a. c a ≡ true) s × (cs ≡ [])
Matches (group r) s cs = (ds : List Text) × (cs ≡ s ∷ ds) × Matches r s ds

-- A way through the pattern on the input `s`.
abbrev pub IsWay : Regex → Text → Way → Type 0
IsWay r s w = (w.matched ++ w.rest ≡ s) × Matches r w.matched w.captures

All-weaken : (P Q : Way → Type 0) (ws : List Way) → ((w : Way) → P w → Q w) → All P ws → All Q ws
All-weaken P Q [] k h = tt
All-weaken P Q (w ∷ ws) k (p, h) = (k w p, All-weaken P Q ws k h)

All-each :
    (P Q : Way → Type 0) (f : Way → Way) (ws : List Way)
    → ((w : Way) → P w → Q (f w))
    → All P ws
    → All Q (each f ws)
All-each P Q f [] k h = tt
All-each P Q f (w ∷ ws) k (p, h) = (k w p, All-each P Q f ws k h)

All-in_turn :
    (P Q : Way → Type 0) (f : Way → List Way) (ws : List Way)
    → ((w : Way) → P w → All Q (f w))
    → All P ws
    → All Q (in_turn f ws)
All-in_turn P Q f [] k h = tt
All-in_turn P Q f (w ∷ ws) k (p, h) =
    All-append Q (f w) (in_turn f ws) (k w p) (All-in_turn P Q f ws k h)

module _ (c : ℕ → Bool) where
  one_way-All : (s : Text) → All (IsWay (one_of c) s) (one_way c s)
  unfolding one_way
  one_way-All [] = tt
  one_way-All (a ∷ s) = elim (Bool-cases (c a)) [
    | inl e ↦ rw e ((refl, (a, refl, e, refl)), tt)
    | inr e ↦ rw e tt
  ]

  times_ways-All : (n : ℕ) (s : Text) → All (IsWay (times n c) s) (times_ways n c s)
  unfolding times_ways
  times_ways-All zero s = ((refl, (refl, tt, refl)), tt)
  times_ways-All (suc n) [] = tt
  times_ways-All (suc n) (a ∷ s) = elim (Bool-cases (c a)) [
    | inl e ↦ rw e (
        All-each (IsWay (times n c) s) (IsWay (times (suc n) c) (a ∷ s)) (prepend a)
          (times_ways n c s) (λ w h. (ap (λ t. a ∷ t) h.0, (ap suc h.1.0, (e, h.1.1), h.1.2)))
          (times_ways-All n s))
    | inr e ↦ rw e tt
  ]

  plus_ways-All : (s : Text) → All (IsWay (plus c) s) (plus_ways c s)
  unfolding plus_ways
  plus_ways-All [] = tt
  plus_ways-All (a ∷ s) = elim (Bool-cases (c a)) [
    | inl e ↦ rw e (
        All-append (IsWay (plus c) (a ∷ s)) (each (prepend a) (plus_ways c s)) _
          (All-each (IsWay (plus c) s) (IsWay (plus c) (a ∷ s)) (prepend a) (plus_ways c s)
            (λ w h. (ap (λ t. a ∷ t) h.0, ((λ q. cc), (e, h.1.1), h.1.2))) (plus_ways-All s))
          ((refl, ((λ q. cc), (e, tt), refl)), tt))
    | inr e ↦ rw e tt
  ]

follow-IsWay :
    (r q : Regex) (s : Text) (v w : Way)
    → IsWay r s v
    → IsWay q v.rest w
    → IsWay (seq r q) s (follow v w)
follow-IsWay r q s v w (e, m) (e', m') = (
  append_assoc v.matched w.matched w.rest ∙ (ap (λ t. v.matched ++ t) e' ∙ e),
  (v.matched, v.captures, w.matched, w.captures, refl, refl, m, m'),
)

-- Every way that the search finds is one.
pub ways_sound : (r : Regex) (s : Text) → All (IsWay r s) (ways r s)
unfolding ways
ways_sound nothing s = ((refl, (refl, refl)), tt)
ways_sound (one_of c) s = one_way-All c s
ways_sound (seq r q) s =
    All-in_turn (IsWay r s) (IsWay (seq r q) s) (λ v. each (follow v) (ways q v.rest)) (ways r s)
      (λ v h.
        All-each (IsWay q v.rest) (IsWay (seq r q) s) (follow v) (ways q v.rest)
          (λ w k. follow-IsWay r q s v w h k) (ways_sound q v.rest))
      (ways_sound r s)
ways_sound (alt r q) s =
    All-append (IsWay (alt r q) s) (ways r s) (ways q s)
      (All-weaken (IsWay r s) (IsWay (alt r q) s) (ways r s) (λ w h. (h.0, inl h.1))
        (ways_sound r s))
      (All-weaken (IsWay q s) (IsWay (alt r q) s) (ways q s) (λ w h. (h.0, inr h.1))
        (ways_sound q s))
ways_sound (times n c) s = times_ways-All c n s
ways_sound (plus c) s = plus_ways-All c s
ways_sound (group r) s =
    All-each (IsWay r s) (IsWay (group r) s) capture (ways r s)
      (λ w h. (h.0, (w.captures, refl, h.1))) (ways_sound r s)
