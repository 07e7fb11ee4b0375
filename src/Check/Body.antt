-- ===== src/Check/Body.antt =====
-- main.py, `_probe_once`: the response's body is counted, searched and thrown away as it arrives.
pub mod Search
use vigil_sre.Prelude.{
  ℕ, zero, suc, ◌+◌, ◌-◌, ◌*◌, String, Bool, true, false, ◌&&◌, ◌||◌, Option, none, some, List, [],
  ◌∷◌, ◌++◌, leb, ltb, ◌==◌, if◌then◌else◌, length,
}

abbrev pub Bytes : Type 0
Bytes = List ℕ

abbrev pub max_body_bytes : ℕ
max_body_bytes = 4 * 1024 * 1024

-- What a request may raise, with the text of the error; `unforeseen` is any other exception.
pub data Fault : Type 0 where
  timed_out unforeseen : Fault
  connection_error client_error unicode_error : String → Fault

-- What `iter_chunked` yields: its chunks, and the end or an error.
pub data Stream : Type 0 where
  finished : Stream
  broken : Fault → Stream
  chunk : Bytes → Stream → Stream

unfoldable pub is_prefix : Bytes → Bytes → Bool
is_prefix [] w = true
is_prefix (b ∷ n) [] = false
is_prefix (b ∷ n) (c ∷ w) = b == c && is_prefix n w

-- `needle in window`
unfoldable pub contains_bytes : Bytes → Bytes → Bool
unfolding is_prefix
contains_bytes n [] = is_prefix n []
contains_bytes n (c ∷ w) = is_prefix n (c ∷ w) || contains_bytes n w

-- `window[-overlap:] if overlap else b""`: the last bytes, or all if there are fewer.
unfoldable pub last_bytes : ℕ → Bytes → Bytes
last_bytes overlap [] = []
last_bytes overlap (c ∷ w) = if ltb (length w) overlap then c ∷ w else last_bytes overlap w

-- The variables of the loop.
pub record Reading : Type 0 where
  pub found : Bool
  pub tail : Bytes
  pub body_bytes : ℕ

-- The needle, where there is one; an empty one is none.
abbrev pub needle_of : Option Bytes → Bytes
needle_of none = []
needle_of (some n) = n

abbrev pub is_empty_needle : Bytes → Bool
is_empty_needle [] = true
is_empty_needle (b ∷ n) = false

abbrev pub overlap_of : Bytes → ℕ
overlap_of n = length n - 1

abbrev pub before_body : Bytes → Reading
before_body needle = record { found = is_empty_needle needle; tail = []; body_bytes = 0 }

-- The loop's body behind the test of the size.
unfoldable pub search_chunk : Bytes → Bytes → Reading → Reading
unfolding contains_bytes last_bytes
search_chunk needle c r = if r.found then r else record r {
  found = contains_bytes needle (r.tail ++ c);
  tail = last_bytes (overlap_of needle) (r.tail ++ c);
}

pub data Body : Type 0 where
  -- was the needle found, and how many bytes there were
  complete : Bool → ℕ → Body
  too_large : Body
  lost : Fault → Body

unfoldable pub read_body : Bytes → Stream → Reading → Body
unfolding search_chunk
read_body needle finished r = complete r.found r.body_bytes
read_body needle (broken fault) r = lost fault
read_body needle (chunk c s) r =
    let r' = record r { body_bytes = r.body_bytes + length c } in
    let rest = read_body needle s (search_chunk needle c r') in
    if ltb max_body_bytes r'.body_bytes then too_large else rest
