-- ===== src/Http2/Frame/Body/Keeps.antt =====
-- What a read keeps of the caller's frame object, however it ends.
use proxy_rs.Prelude.{Bool, true, false, if◌then◌else◌}
use proxy_rs.Io.{
  M, Outcome, Source, ok, err, panic, bind_outcome, ◌>>=◌, ◌>>◌, fail_if, assert, return,
  IoProtoError,
}
use proxy_rs.Http2.Frame.Body.{on_source, modify}

-- A value that is returned is as `Q` says.
abbrev pub Returns : {E A : Type 0} → (A → Type 0) → Outcome E A → Type 0
Returns Q (ok a) = Q a
Returns Q (err e) = Unit {0}
Returns Q panic = Unit {0}

-- `P` holds of the object after the call if it held before.
pub record Keeps {F A : Type 0} (P : F → Type 0) (Q : A → Type 0)
    (m : M (F × Source) IoProtoError A) : Type 0 where
  pub run : (f : F) (s : Source) → P f → P (m (f, s)).1.0 × Returns Q (m (f, s)).0

abbrev pub Any : {A : Type 0} → A → Type 0
Any a = Unit {0}

pub returned-Any : {A : Type 0} (r : Outcome IoProtoError A) → Returns Any r
returned-Any (ok a) = tt
returned-Any (err e) = tt
returned-Any panic = tt

module _ {F : Type 0} (P : F → Type 0) where
  after :
      {A B : Type 0} (Q : A → Type 0) (R : B → Type 0) (x : Outcome IoProtoError A × (F × Source))
      (k : A → M (F × Source) IoProtoError B)
      → ((a : A) → Q a → Keeps P R (k a))
      → P x.1.0 × Returns Q x.0
      → P (bind_outcome x k).1.0 × Returns R (bind_outcome x k).0
  after Q R (ok a, (f, s)) k h (p, q) = (h a q).run f s p
  after Q R (err e, (f, s)) k h (p, q) = (p, tt)
  after Q R (panic, (f, s)) k h (p, q) = (p, tt)

  pub Keeps-bind :
      {A B : Type 0} (Q : A → Type 0) (R : B → Type 0) (m : M (F × Source) IoProtoError A)
      (k : A → M (F × Source) IoProtoError B)
      → Keeps P Q m
      → ((a : A) → Q a → Keeps P R (k a))
      → Keeps P R (m >>= k)
  Keeps-bind Q R m k h hk = record { run = λ f s p. after Q R (m (f, s)) k hk (h.run f s p) }

  pub Keeps-then :
      {B : Type 0} (R : B → Type 0) (m : M (F × Source) IoProtoError (Unit {0}))
      (k : M (F × Source) IoProtoError B)
      → Keeps P Any m
      → Keeps P R k
      → Keeps P R (m >> k)
  Keeps-then R m k h hk = record {
    run = λ f s p. after Any R (m (f, s)) (λ _. k) (λ a q. hk) (h.run f s p);
  }

  pub Keeps-on_source : {A : Type 0} (m : M Source IoProtoError A) → Keeps P Any (on_source m)
  Keeps-on_source m = record { run = λ f s p. (p, returned-Any (m s).0) }

  pub Keeps-fail_if :
      (test : Bool) (e : IoProtoError) → Keeps P Any (fail_if {S = F × Source} test e)
  Keeps-fail_if true e = record { run = λ f s p. (p, tt) }
  Keeps-fail_if false e = record { run = λ f s p. (p, tt) }

  pub Keeps-assert : (test : Bool) → Keeps P Any (assert {S = F × Source} {E = IoProtoError} test)
  Keeps-assert true = record { run = λ f s p. (p, tt) }
  Keeps-assert false = record { run = λ f s p. (p, tt) }

  pub Keeps-modify :
      (g : F → F) → ((f : F) → P f → P (g f)) → Keeps P Any (modify {F = F} {E = IoProtoError} g)
  Keeps-modify g h = record { run = λ f s p. (h f p, tt) }

  pub Keeps-return : {A : Type 0} (Q : A → Type 0) (a : A) → Q a → Keeps P Q (return a)
  Keeps-return Q a q = record { run = λ f s p. (p, q) }

  pub Keeps-if :
      {A : Type 0} (Q : A → Type 0) (test : Bool) (m n : M (F × Source) IoProtoError A)
      → Keeps P Q m
      → Keeps P Q n
      → Keeps P Q (if test then m else n)
  Keeps-if Q true m n hm hn = hm
  Keeps-if Q false m n hm hn = hn
