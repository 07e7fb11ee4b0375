-- ===== src/Check/Body/Search.antt =====
-- main.py, `_probe_once`: the search over chunks finds what a search of the whole body would.
use vigil_sre.Prelude.{
  ◌+◌, ◌≤◌, ◌<◌, ◌≡◌, refl, sym, ap, ◌∙◌, true, false, Option, none, some, [], ◌∷◌, ◌++◌, ltb,
  if◌then◌else◌, length, arith, Bool-cases, inl, inr,
}
use mathlib.Core.List.{append_assoc, append-nil}
use vigil_sre.Check.Body.{
  Bytes, Fault, Stream, finished, broken, chunk, is_prefix, contains_bytes, last_bytes, Reading,
  overlap_of, before_body, search_chunk, Body, complete, too_large, lost, read_body, max_body_bytes,
}

-- A prefix that fits into the front is decided there.
is_prefix-append : (n w v : Bytes) → length n ≤ length w → is_prefix n (w ++ v) ≡ is_prefix n w
unfolding is_prefix
is_prefix-append [] w v h = refl
is_prefix-append (b ∷ n) [] v h = absurd (omega arith)
is_prefix-append (b ∷ n) (c ∷ w) v h = ground (arith, is_prefix-append n w v)

is_prefix_mono : (n w v : Bytes) → is_prefix n w ≡ true → is_prefix n (w ++ v) ≡ true
unfolding is_prefix
is_prefix_mono [] w v h = refl
is_prefix_mono (b ∷ n) [] v h = cc
is_prefix_mono (b ∷ n) (c ∷ w) v h = ground (arith, is_prefix_mono n w v)

contains_bytes-nil : (w : Bytes) → contains_bytes [] w ≡ true
unfolding contains_bytes
contains_bytes-nil [] = refl
contains_bytes-nil (c ∷ w) = refl

contains_bytes_mono : (n w v : Bytes) → contains_bytes n w ≡ true → contains_bytes n (w ++ v) ≡ true
unfolding contains_bytes
contains_bytes_mono [] [] v h = contains_bytes-nil v
contains_bytes_mono (b ∷ n) [] v h = cc
contains_bytes_mono n (c ∷ w) v h =
    ground (arith, is_prefix_mono n (c ∷ w) v, contains_bytes_mono n w v)

-- Behind a window without the needle, its last bytes are all that a later match can use.
contains_bytes-last_bytes :
    (n w v : Bytes)
    → contains_bytes n w ≡ false
    → contains_bytes n (w ++ v) ≡ contains_bytes n (last_bytes (overlap_of n) w ++ v)
unfolding contains_bytes last_bytes
contains_bytes-last_bytes n [] v h = refl
contains_bytes-last_bytes n (c ∷ w) v h = elim (Bool-cases (ltb (length w) (overlap_of n))) [
  | inl few ↦ rw few
  | inr many ↦
      rw many (ground (arith, is_prefix-append n (c ∷ w) v, contains_bytes-last_bytes n w v))
]

-- What the loop knows after the bytes `p`.
record Knows (n p : Bytes) (r : Reading) : Type 0 where
  counted : r.body_bytes ≡ length p
  within : length p ≤ max_body_bytes
  decided : r.found ≡ contains_bytes n p
  later : r.found ≡ false → (v : Bytes) → contains_bytes n (p ++ v) ≡ contains_bytes n (r.tail ++ v)

before_body-Knows : (n : Bytes) → Knows n [] (before_body n)
unfolding contains_bytes
before_body-Knows [] = record {
  counted = refl;
  within = omega arith;
  decided = refl;
  later = λ h v. refl;
}
before_body-Knows (b ∷ n) = record {
  counted = refl;
  within = omega arith;
  decided = refl;
  later = λ h v. refl;
}

length-append : (p c : Bytes) → length (p ++ c) ≡ length p + length c
length-append [] c = omega arith
length-append (x ∷ p) c = omega (arith, length-append p c)

search_chunk-Knows :
    (n p c : Bytes) (r : Reading)
    → Knows n p r
    → length (p ++ c) ≤ max_body_bytes
    → Knows n (p ++ c) (search_chunk n c (record r { body_bytes = r.body_bytes + length c }))
unfolding search_chunk
search_chunk-Knows n p c r k le = elim (Bool-cases r.found) [
  | inl old ↦ record {
    counted = ground (arith, k.counted, length-append p c);
    within = le;
    decided = ground (arith, k.decided, contains_bytes_mono n p c);
    later = λ h v. ground arith;
  }
  | inr new ↦ record {
    counted = ground (arith, k.counted, length-append p c);
    within = le;
    decided = ground (arith, k.later new c);
    later = λ h v. rw new (
        ap (contains_bytes n) (append_assoc p c v)
        ∙ k.later new (c ++ v)
        ∙ sym (ap (contains_bytes n) (append_assoc r.tail c v))
        ∙ contains_bytes-last_bytes n (r.tail ++ c) v (rw new at h));
  }
]

-- All bytes that come before the end or the error.
abbrev pub joined : Stream → Bytes
joined finished = []
joined (broken fault) = []
joined (chunk c s) = c ++ joined s

abbrev pub ending : Stream → Option Fault
ending finished = none
ending (broken fault) = some fault
ending (chunk c s) = ending s

-- The body read as a whole: its size, then its end, then one search.
abbrev pub whole_body : Bytes → Bytes → Option Fault → Body
whole_body n body (some fault) = if ltb max_body_bytes (length body) then too_large else lost fault
whole_body n body none =
    if ltb max_body_bytes (length body)
    then too_large
    else complete (contains_bytes n body) (length body)

whole_body-too_large :
    (n body : Bytes) (end : Option Fault)
    → max_body_bytes < length body
    → whole_body n body end ≡ too_large
whole_body-too_large n body none h = ground arith
whole_body-too_large n body (some fault) h = ground arith

read_body-whole_body :
    (n : Bytes) (s : Stream) (p : Bytes) (r : Reading)
    → Knows n p r
    → read_body n s r ≡ whole_body n (p ++ joined s) (ending s)
unfolding read_body
read_body-whole_body n finished p r k = ground (arith, k.counted, k.within, k.decided, append-nil p)
read_body-whole_body n (broken fault) p r k = ground (arith, k.within, append-nil p)
read_body-whole_body n (chunk c s) p r k =
    let r' = record r { body_bytes = r.body_bytes + length c } in
    elim (Bool-cases (ltb max_body_bytes r'.body_bytes)) [
      | inl big ↦ rw big (
          sym (
            whole_body-too_large n (p ++ (c ++ joined s)) (ending s) (
              ground
                (arith, k.counted, length-append p (c ++ joined s), length-append c (joined s)))))
      | inr fits ↦ rw fits (
          read_body-whole_body n s (p ++ c) (search_chunk n c r')
            (search_chunk-Knows n p c r k (ground (arith, k.counted, length-append p c)))
          ∙ ap (λ b. whole_body n b (ending s)) (append_assoc p c (joined s)))
    ]

-- Reading a body in chunks comes to the same as reading it whole: it is too large exactly if its
-- bytes before the end or an error exceed 4 MiB; otherwise an error while reading is reported;
-- otherwise the count is that of all bytes, and the needle counts as found exactly if the whole
-- body contains it, however the chunks cut it.
pub read_body_lem :
    (needle : Bytes) (s : Stream)
    → read_body needle s (before_body needle) ≡ whole_body needle (joined s) (ending s)
read_body_lem needle s =
    read_body-whole_body needle s [] (before_body needle) (before_body-Knows needle)
