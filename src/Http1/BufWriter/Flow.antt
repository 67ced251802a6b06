-- ===== src/Http1/BufWriter/Flow.antt =====
-- What goes into a `BufWriter` comes out behind it, in order, where the writer inside has the room.
use proxy_rs.Prelude.{
  ℕ, zero, suc, ◌+◌, ◌-◌, ◌≤◌, ◌≡◌, ◌∙◌, refl, sym, ap, List, [], ◌∷◌, ◌++◌, length, drop, ltb, leb,
  arith, append-nil, append_assoc, length-append, Bool-cases, inl, inr, not-ltb→le, leb→le, codes,
  eq_nil_of_length, true,
}
use proxy_rs.Io.{Outcome, ok, IoError, write_zero, other}
use proxy_rs.Bio.{WritesTo}
use proxy_rs.Http1.BufWriter.{
  BufWriter, capacity, write_loop, flush_buf, write_behind, buf_write_all, after_flush, dropped,
}

-- A writer that takes whatever it has room for, whole.
pub record Taking {W : Type 0} (write : WritesTo W) (took : W → List ℕ) (room : W → ℕ)
    : Type 0 where
  pub next : W → List ℕ → W
  pub takes : (d : List ℕ) (w : W) → length d ≤ room w → write d w ≡ (ok (length d), next w d)
  pub took-next : (d : List ℕ) (w : W) → length d ≤ room w → took (next w d) ≡ took w ++ d
  pub room-next : (d : List ℕ) (w : W) → length d ≤ room w → room (next w d) ≡ room w - length d

drop_all : {A : Type 0} (d : List A) → drop (length d) d ≡ []
unfolding drop
drop_all [] = refl
drop_all (x ∷ d) = drop_all d

drop_whole : {A : Type 0} (x : A) (d : List A) → drop (suc (length d)) (x ∷ d) ≡ []
drop_whole x d = drop_all (x ∷ d)

loop_end :
    {W : Type 0} (write : WritesTo W) (e : IoError) (fuel : ℕ) (w : W)
    → write_loop write e fuel [] w ≡ (ok tt, ([], w))
unfolding write_loop
loop_end write e zero w = refl
loop_end write e (suc fuel) w = refl

module _ {W : Type 0} {write : WritesTo W} {took : W → List ℕ} {room : W → ℕ}
    (taking : Taking write took room) where
  -- All that was written, sent or not.
  abbrev pub flown : BufWriter W → List ℕ
  flown b = took b.inner ++ b.buffered

  -- `b'` is `b` with `d` behind, and the room that this leaves.
  pub record Flows (b b' : BufWriter W) (d : List ℕ) : Type 0 where
    pub out : flown b' ≡ flown b ++ d
    pub left : room b'.inner + (length b.buffered + length d) ≡ room b.inner + length b'.buffered

  loop-takes :
      (e : IoError) (d : List ℕ) (w : W)
      → length d ≤ room w
      → (w' : W) × ((write_loop write e (length d) d w ≡ (ok tt, ([], w')))
          × ((took w' ≡ took w ++ d) × (room w' + length d ≡ room w)))
  unfolding write_loop
  loop-takes e [] w h = (w, (refl, (sym (append-nil _), omega arith)))
  loop-takes e (x ∷ d) w h = (
    taking.next w (x ∷ d),
    (
      rw (taking.takes (x ∷ d) w h) (
          ap (λ r. write_loop write e (length d) r (taking.next w (x ∷ d))) (drop_whole x d)
          ∙ loop_end write e (length d) (taking.next w (x ∷ d))),
      (taking.took-next (x ∷ d) w h, omega (arith, taking.room-next (x ∷ d) w h)),
    ),
  )

  flush_buf-Flows :
      (b : BufWriter W)
      → length b.buffered ≤ room b.inner
      → (w : W) × ((flush_buf write b ≡ (ok tt, record { buffered = []; inner = w }))
          × ((took w ≡ flown b) × (room w + length b.buffered ≡ room b.inner)))
  unfolding flush_buf
  flush_buf-Flows b h =
      let (w, (run, k)) =
        loop-takes (other (codes "failed to write the buffered data")) b.buffered b.inner h in
      (w, (rw run refl, k))

  write_behind-Flows :
      (d : List ℕ) (b : BufWriter W)
      → (leb capacity (length d) ≡ true → b.buffered ≡ [])
      → length b.buffered + length d ≤ room b.inner
      → (b' : BufWriter W) × ((write_behind write d b ≡ (ok tt, b')) × Flows b b' d)
  unfolding write_behind
  write_behind-Flows d b empty h = elim (Bool-cases (leb capacity (length d))) [
    | inl long ↦
        let none = empty long in
        let (w, (run, (t, r))) = loop-takes write_zero d b.inner (omega arith) in
        (
          record { buffered = b.buffered; inner = w },
          (
            rw (long, run) refl,
            record {
              out =
                  rw (t, none) (append-nil _ ∙ ap (λ x. x ++ d) (sym (append-nil (took b.inner))));
              left = omega (arith, ap length none);
            },
          ),
        )
    | inr short ↦ (
      record b { buffered = b.buffered ++ d },
      (
        rw short refl,
        record {
          out = sym (append_assoc (took b.inner) b.buffered d);
          left = omega (arith, length-append b.buffered d);
        },
      ),
    )
  ]

  -- What is written is behind what was written before, whether it is buffered or sent.
  pub buf_write_all-Flows :
      (d : List ℕ) (b : BufWriter W)
      → length b.buffered + length d ≤ room b.inner
      → (b' : BufWriter W) × ((buf_write_all write d b ≡ (ok tt, b')) × Flows b b' d)
  unfolding buf_write_all
  buf_write_all-Flows d b h = elim (Bool-cases (ltb (length b.buffered + length d) capacity)) [
    | inl short ↦ (
      record b { buffered = b.buffered ++ d },
      (
        rw short refl,
        record {
          out = sym (append_assoc (took b.inner) b.buffered d);
          left = omega (arith, length-append b.buffered d);
        },
      ),
    )
    | inr full ↦ elim (Bool-cases (ltb capacity (length b.buffered + length d))) [
      | inl over ↦
          let (w, (run, (t, r))) = flush_buf-Flows b (omega arith) in
          let (b', (run', f)) =
            write_behind-Flows d (record { buffered = []; inner = w }) (λ long. refl)
              (omega arith) in
          (
            b',
            (
              rw (full, over, run) run',
              record {
                out = f.out ∙ ap (λ x. x ++ d) (append-nil (took w) ∙ t);
                left = omega (arith, f.left);
              },
            ),
          )
      | inr exact ↦
          let le = not-ltb→le _ _ exact in
          let (b', (run, f)) =
            write_behind-Flows d b
              (λ long. eq_nil_of_length b.buffered (omega (arith, leb→le capacity (length d) long)))
              h in
          (b', (rw (full, exact) run, f))
    ]
  ]

  -- The drop sends what is still buffered.
  pub dropped-flown :
      {A : Type 0} (r : Outcome IoError A) (b : BufWriter W)
      → length b.buffered ≤ room b.inner
      → (w : W) × ((dropped write (r, b) ≡ (r, w)) × (took w ≡ flown b))
  unfolding dropped
  dropped-flown r b h =
      let (w, (run, (t, _))) = flush_buf-Flows b h in (w, (ap (after_flush r) run, t))
