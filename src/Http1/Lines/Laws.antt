-- ===== src/Http1/Lines/Laws.antt =====
-- Lines that are read whole, and the white space behind them.
use proxy_rs.Prelude.{
  ℕ, ◌≡◌, ◌≢◌, ◌∙◌, refl, sym, ap, true, false, none, some, List, [], ◌∷◌, ◌++◌, All, ◌==◌, ==_iff,
  if◌then◌else◌, ne→==-false, Option-cases, Bool-cases, inl, inr,
}
use proxy_rs.Io.{ok}
use proxy_rs.Http1.Lines.{
  Stream, in_front, split_once, until, read_until, is_utf8, read_line, SpaceState, start, c2, e1,
  e1_9a, e2, e2_80, e2_81, e3, e3_80, space_step, follow, blank, trim_end,
}

-- Bytes without this one.
abbrev pub Lacks : ℕ → List ℕ → Type 0
Lacks c d = All (λ x. x ≢ c) d

-- `split_once` splits at the first.
pub split_once-append :
    (c : ℕ) (d rest : List ℕ) → Lacks c d → split_once c (d ++ (c ∷ rest)) ≡ some (d, rest)
unfolding split_once
split_once-append c [] rest h = rw ((==_iff c c).1 refl) refl
split_once-append c (x ∷ d) rest (hx, h) =
    rw (ne→==-false x c hx, split_once-append c d rest h) refl

pub split_once-none : (c : ℕ) (d : List ℕ) → Lacks c d → split_once c d ≡ none
unfolding split_once
split_once-none c [] h = refl
split_once-none c (x ∷ d) (hx, h) = rw (ne→==-false x c hx, split_once-none c d h) refl

-- A line that ends is read with its end.
pub read_until-line :
    (line rest : List ℕ) (s : Stream)
    → s.pending ≡ line ++ (10 ∷ rest)
    → Lacks 10 line
    → read_until s ≡ (ok (line ++ (10 ∷ [])), record s { pending = rest })
unfolding read_until
read_until-line line rest s e h =
    ap (until s) (ap (split_once 10) e ∙ split_once-append 10 line rest h)

pub read_line-line :
    (line rest : List ℕ) (s : Stream)
    → s.pending ≡ line ++ (10 ∷ rest)
    → Lacks 10 line
    → is_utf8 (line ++ (10 ∷ [])) ≡ true
    → read_line s ≡ (ok (line ++ (10 ∷ [])), record s { pending = rest })
unfolding read_line
read_line-line line rest s e h u = rw (read_until-line line rest s e h, u) refl

-- A byte that is part of no white space.
abbrev pub Solid : ℕ → Type 0
Solid c = (s : SpaceState) → space_step s c ≡ none

pub one-Solid : Solid 49
one-Solid start = refl
one-Solid c2 = refl
one-Solid e1 = refl
one-Solid e1_9a = refl
one-Solid e2 = refl
one-Solid e2_80 = refl
one-Solid e2_81 = refl
one-Solid e3 = refl
one-Solid e3_80 = refl

blank-Solid :
    (c : ℕ) (d rest : List ℕ) (s : SpaceState) → Solid c → blank (d ++ (c ∷ rest)) s ≡ false
unfolding blank
blank-Solid c [] rest s h = ap (follow (blank rest)) (h s)
blank-Solid c (x ∷ d) rest s h = elim (Option-cases (space_step s x)) [
  | inl e ↦ ap (follow (blank (d ++ (c ∷ rest)))) e
  | inr (s', e) ↦ ap (follow (blank (d ++ (c ∷ rest)))) e ∙ blank-Solid c d rest s' h
]

-- What ends in such a byte keeps all of it, and loses the white space behind.
pub trim_end-Solid :
    (c : ℕ) (d space : List ℕ)
    → Solid c
    → trim_end space ≡ []
    → trim_end (d ++ (c ∷ space)) ≡ d ++ (c ∷ [])
unfolding trim_end
trim_end-Solid c [] space h hs = rw (blank-Solid c [] space start h, hs) refl
trim_end-Solid c (x ∷ d) space h hs =
    rw (blank-Solid c (x ∷ d) space start h, trim_end-Solid c d space h hs) refl

-- Where `split_once` finds nothing, the byte is not there.
pub none-Lacks : (c : ℕ) (d : List ℕ) → split_once c d ≡ none → Lacks c d
unfolding split_once
none-Lacks c [] h = tt
none-Lacks c (x ∷ d) h = elim (Bool-cases (x == c)) [
  | inl hit ↦
      let e : some ([], d) ≡ none =
        sym (ap (λ t. if t then some ([], d) else in_front x (split_once c d)) hit) ∙ h in
      absurd cc
  | inr miss ↦
      let e : in_front x (split_once c d) ≡ none =
        sym (ap (λ t. if t then some ([], d) else in_front x (split_once c d)) miss) ∙ h in
      elim (Option-cases (split_once c d)) [
        | inl missing ↦
            ((λ same. let hit = (==_iff x c).1 same in absurd cc), none-Lacks c d missing)
        | inr (p, found) ↦
            let e' : some (x ∷ p.0, p.1) ≡ none = sym (ap (in_front x) found) ∙ e in absurd cc
      ]
]
