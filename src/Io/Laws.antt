-- ===== src/Io/Laws.antt =====
-- Reading what stands in front, and writing in pieces.
use mathlib.Core.Path.{fun_ext}
use proxy_rs.Prelude.{
  ap, ◌∙◌, ℕ, ◌+◌, ◌-◌, ◌≡◌, refl, sym, List, ◌++◌, length, leb, Bool-cases, inl, inr, arith,
  le→leb, leb→le, not-leb→lt, lt→not-leb, length-append, take-append, drop-append, append_assoc,
  take-append_add, take-append_short,
}
use proxy_rs.Io.{
  return, from_io, from_io_outcome, ◌>>=◌, Outcome, ok, err, panic, bind_outcome, Sink, IoError,
  read_exact, write_all, ◌>>◌, M,
}

-- A reader that holds `xs` first delivers exactly `xs`.
pub read_exact-append :
    (n : ℕ) (xs ys : List ℕ) (e : IoError)
    → length xs ≡ n
    → read_exact n (record { pending = xs ++ ys; failure = e })
      ≡ (ok xs, record { pending = ys; failure = e })
unfolding read_exact
read_exact-append n xs ys e h =
    rw
      (
        le→leb n (length (xs ++ ys)) (omega (arith, length-append xs ys)),
        take-append n xs ys h,
        drop-append n xs ys h,
      )
      refl

room_left : (r a b : ℕ) → r - (a + b) ≡ r - a - b
room_left r a b = omega arith

pub bind_outcome_assoc :
    {S E A B C : Type 0} (r : Outcome E A × S) (f : A → S → Outcome E B × S)
    (g : B → S → Outcome E C × S)
    → bind_outcome (bind_outcome r f) g ≡ bind_outcome r (λ a s. bind_outcome (f a s) g)
bind_outcome_assoc (ok a, s) f g = refl
bind_outcome_assoc (err e, s) f g = refl
bind_outcome_assoc (panic, s) f g = refl

-- Two writes in a row are one write of both, on a sink that fails in between as well.
pub write_all-append :
    (a b : List ℕ) (s : Sink) → write_all (a ++ b) s ≡ (write_all a >> write_all b) s
unfolding write_all
write_all-append a b s = elim (Bool-cases (leb (length a) s.room)) [
  | inl fits ↦ elim (Bool-cases (leb (length b) (s.room - length a))) [
    | inl both ↦
        let h = leb→le _ _ fits in
        let k = leb→le _ _ both in
        rw
          (
            fits,
            both,
            le→leb (length (a ++ b)) s.room (omega (arith, length-append a b)),
            append_assoc,
            length-append a b,
            room_left s.room (length a) (length b),
          )
          refl
    | inr over ↦
        let h = leb→le _ _ fits in
        let k = not-leb→lt _ _ over in
        rw
          (
            fits,
            over,
            lt→not-leb (length (a ++ b)) s.room (omega (arith, length-append a b)),
            take-append_add a s.room (s.room - length a) b (omega arith),
            append_assoc,
          )
          refl
  ]
  | inr over ↦
      let h = not-leb→lt _ _ over in
      rw
        (
          over,
          lt→not-leb (length (a ++ b)) s.room (omega (arith, length-append a b)),
          take-append_short s.room a b (omega arith),
        )
        refl
]

-- The same in front of what is done after both.
pub write_all-write_all :
    {A : Type 0} (a b : List ℕ) (k : M Sink IoError A) (s : Sink)
    → (write_all a >> (write_all b >> k)) s ≡ (write_all (a ++ b) >> k) s
write_all-write_all a b k s =
    rw write_all-append (sym (bind_outcome_assoc (write_all a s) (λ _. write_all b) (λ _. k)))

-- The same where the second write stands in a block of its own, which passes a count on.
pub write_all-block :
    {A : Type 0} (a b : List ℕ) (n : ℕ) (k : ℕ → M Sink IoError A) (s : Sink)
    → (write_all a >> ((write_all b >> return n) >>= k)) s ≡ (write_all (a ++ b) >> k n) s
write_all-block a b n k s =
    ap (bind_outcome (write_all a s))
      (fun_ext λ _. fun_ext λ t. bind_outcome_assoc (write_all b t) (λ _. return n) k)
    ∙ write_all-write_all a b (k n) s

-- Turning io errors into protocol errors at each of two steps is turning them at the end.
pub from_io-bind2 :
    {S A B C : Type 0} (r : Outcome IoError A × S) (m : A → M S IoError B) (f : A → C)
    → bind_outcome (from_io_outcome r.0, r.1) (λ a. from_io (m a) >>= λ _. return (f a)) ≡ (
      from_io_outcome (bind_outcome r (λ a. m a >>= λ _. return (f a))).0,
      (bind_outcome r (λ a. m a >>= λ _. return (f a))).1,
    )
from_io-bind2 {S} {A} {B} {C} (ok a, s) m f = last (m a s)
  where
    last :
        (q : Outcome IoError B × S)
        → bind_outcome (from_io_outcome q.0, q.1) (λ _. return (f a)) ≡ (
          from_io_outcome (bind_outcome q (λ _. return (f a))).0,
          (bind_outcome q (λ _. return (f a))).1,
        )
    last (ok b, t) = refl
    last (err e, t) = refl
    last (panic, t) = refl
from_io-bind2 {S} {A} {B} {C} (err e, s) m f = refl
from_io-bind2 {S} {A} {B} {C} (panic, s) m f = refl

-- A success of two steps is one of each.
pub bind_outcome-ok :
    {S E A B : Type 0} (x : Outcome E A × S) (f : A → M S E B) (b : B) (t : S)
    → bind_outcome x f ≡ (ok b, t)
    → (a : A) × ((x ≡ (ok a, x.1)) × (f a x.1 ≡ (ok b, t)))
bind_outcome-ok (ok a, s) f b t h = (a, (refl, h))
bind_outcome-ok (err e, s) f b t h = cc
bind_outcome-ok (panic, s) f b t h = cc
