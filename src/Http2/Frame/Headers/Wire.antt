-- ===== src/Http2/Frame/Headers/Wire.antt =====
-- The bytes of a HEADERS frame, and that `write_frame` writes them.
use proxy_rs.Prelude.{
  ℕ, ◌+◌, ◌%◌, ◌^◌, ◌≤◌, ◌<◌, ◌≡◌, refl, ◌∙◌, Bool, true, false, Option, none, some, List, [], ◌∷◌,
  ◌++◌, bit_and, bit_or, if◌then◌else◌, length, take, replicate, arith, append_assoc, append-nil,
  length-replicate, take-replicate,
}
use mathlib.Core.Path.{fun_ext}
use native.Mathlib.Nat.{add-zero}
use proxy_rs.Prelude.Bits.{bit_and_fits}
use proxy_rs.Prelude.Bytes.{to_be_bytes}
use proxy_rs.Io.{M, Sink, IoError, write_all, ◌>>=◌, ◌>>◌, return}
use proxy_rs.Io.Laws.{write_all-write_all, write_all-block}
use proxy_rs.Http2.Frame.{write_u32, write_u8}
use proxy_rs.Http2.Frame.Wire.{wire_header, dep_word, dep_word-or}
use proxy_rs.Http2.Frame.Header.{write_header-then}
use proxy_rs.Http2.Frame.Data.{pad_buf}
use proxy_rs.Http2.Frame.Headers.{
  Priority, type_num, end_flags, pad_flags, priority_flags, pad_size, priority_size, write_pad_len,
  write_priority, write_padding, write_frame,
}

abbrev pub pad_extra : Option ℕ → ℕ
pad_extra none = 0
pad_extra (some pad) = pad + 1

abbrev pub pad_extra_front : Option ℕ → ℕ
pad_extra_front none = 0
pad_extra_front (some pad) = 1

abbrev pub priority_extra : Option Priority → ℕ
priority_extra none = 0
priority_extra (some p) = 5

abbrev pub pad_prefix : Option ℕ → List ℕ
pad_prefix none = []
pad_prefix (some pad) = pad ∷ []

abbrev pub priority_prefix : Option Priority → List ℕ
priority_prefix none = []
priority_prefix (some p) = to_be_bytes 4 (dep_word p.exclusive p.dep) ++ (p.weight ∷ [])

abbrev pub wire_padding : Option ℕ → List ℕ
wire_padding none = []
wire_padding (some pad) = replicate pad 0

abbrev pub frame_flags : Option ℕ → Option Priority → ℕ → ℕ
frame_flags pad priority ends = priority_flags priority (pad_flags pad (bit_and ends end_flags))

-- The bytes of a HEADERS frame.
abbrev pub wire_frame : ℕ → Option ℕ → Option Priority → ℕ → List ℕ → List ℕ
wire_frame id pad priority ends payload =
    wire_header (length payload + pad_extra pad + priority_extra priority) type_num
      (frame_flags pad priority ends) id
    ++ (pad_prefix pad ++ (priority_prefix priority ++ (payload ++ wire_padding pad)))

abbrev pub is_some {ℓ} : {A : Type ℓ} → Option A → Bool
is_some none = false
is_some (some a) = true

abbrev pub pad_len : Option ℕ → ℕ
pad_len none = 0
pad_len (some pad) = pad

-- A frame without the priority fields has weight 16 and depends on no stream.
abbrev pub priority_or_default : Option Priority → Priority
priority_or_default none = record { dep = 0; exclusive = false; weight = 16 }
priority_or_default (some p) = p

abbrev pub IsPadding : Option ℕ → Type 0
IsPadding none = Unit {0}
IsPadding (some pad) = pad < 256

abbrev pub IsPriority : Option Priority → Type 0
IsPriority none = Unit {0}
IsPriority (some p) = p.dep < 2 ^ 31

zeros : (pad : ℕ) → pad ≤ 256 → take pad pad_buf ≡ replicate pad 0
zeros pad h = take-replicate pad 256 0 h

module _ (front : List ℕ) (n : ℕ) (s : Sink) where
  pad_len-then :
      (pad : Option ℕ) (k : ℕ → M Sink IoError ℕ)
      → (write_all front >> (write_pad_len pad n >>= k)) s
        ≡ (write_all (front ++ pad_prefix pad) >> k (n + pad_extra_front pad)) s
  unfolding write_u8
  pad_len-then none k = rw (append-nil, add-zero) refl
  pad_len-then (some pad) k = write_all-block front (pad ∷ []) (n + 1) k s

  priority-then :
      (priority : Option Priority) (k : ℕ → M Sink IoError ℕ)
      → IsPriority priority
      → (write_all front >> (write_priority priority n >>= k)) s
        ≡ (write_all (front ++ priority_prefix priority) >> k (n + priority_extra priority)) s
  unfolding write_u8 write_u32
  priority-then none k h = rw (append-nil, add-zero) refl
  priority-then (some p) k h =
      let word : bit_or (bit_and p.dep 0x7FFFFFFF) (if p.exclusive then 0x80000000 else 0)
          ≡ dep_word p.exclusive p.dep =
        rw (bit_and_fits 31 p.dep h) (dep_word-or p.exclusive p.dep h) in
      rw
        (
          word,
          fun_ext (
              write_all-write_all (to_be_bytes 4 (dep_word p.exclusive p.dep)) (p.weight ∷ [])
                (return (n + 5))),
        )
        (write_all-block front _ (n + 5) k s)

  padding-then :
      (pad : Option ℕ) (payload : List ℕ)
      → IsPadding pad
      → (write_all front >> (write_all payload >> write_padding pad (n + length payload))) s
        ≡ (write_all (front ++ (payload ++ wire_padding pad))
              >> return (n + length payload + length (wire_padding pad)))
            s
  padding-then none payload h = rw (add-zero, append-nil) (write_all-write_all front payload _ s)
  padding-then (some pad) payload h =
      rw (zeros pad (omega arith), length-replicate) (simp (write_all-write_all, append_assoc))

frame_size :
    (pad : Option ℕ) (priority : Option Priority) (n : ℕ)
    → n + pad_extra pad + priority_extra priority < 2 ^ 24
    → priority_size priority (pad_size pad (n % 2 ^ 32)) % 2 ^ 24
      ≡ n + pad_extra pad + priority_extra priority
frame_size none none n h = omega arith
frame_size none (some p) n h = omega arith
frame_size (some pad) none n h = omega arith
frame_size (some pad) (some p) n h = omega arith

count_written :
    (pad : Option ℕ) (m n : ℕ)
    → 9 + pad_extra_front pad + m + n + length (wire_padding pad) ≡ 9 + (n + pad_extra pad + m)
count_written none m n = omega arith
count_written (some pad) m n = omega (arith, length-replicate {0} {A = ℕ} pad 0)

pub write_frame-wire :
    (id : ℕ) (pad : Option ℕ) (priority : Option Priority) (ends : ℕ) (payload : List ℕ) (s : Sink)
    → id < 2 ^ 31
    → IsPadding pad
    → IsPriority priority
    → length payload + pad_extra pad + priority_extra priority < 2 ^ 24
    → write_frame id pad priority ends payload s
      ≡ (write_all (wire_frame id pad priority ends payload)
            >> return (9 + (length payload + pad_extra pad + priority_extra priority)))
          s
unfolding write_frame
write_frame-wire id pad priority ends payload s hi hp hq hl =
    let e : id % 2 ^ 31 ≡ id = omega arith in
    write_header-then _ _ s
    ∙ pad_len-then _ 9 s pad _
    ∙ priority-then _ _ s priority _ hq
    ∙ padding-then _ _ s pad payload hp
    ∙ rw
        (
          frame_size pad priority (length payload) hl,
          e,
          count_written pad (priority_extra priority) (length payload),
        )
        (simp append_assoc)
