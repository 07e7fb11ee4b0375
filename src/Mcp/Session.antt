-- ===== src/Mcp/Session.antt =====
-- mcp_server.py, `run`: a session of several lines.
use vigil_sre.Prelude.{
  Bool, true, false, ◌≡◌, refl, ◌∙◌, Option, none, some, List, [], ◌∷◌, ◌++◌, if◌then◌else◌,
  Option-cases, inl, inr, arith,
}
use mathlib.Core.List.{append-nil}
use vigil_sre.Targets.Value.{Value, object, Fields, items}
use vigil_sre.Mcp.Tools.{Server}
use vigil_sre.Mcp.{Reply, LoadedLine, loaded, raises, handle_line, run}
use vigil_sre.Mcp.Replies.{reply_id, IsRequest, handle-IsRequest}

-- A line is handled without an exception, and what is answered can be written.
abbrev pub is_writable : (Reply → Bool) → Option (Option Reply) → Bool
is_writable encodes none = false
is_writable encodes (some none) = true
is_writable encodes (some (some r)) = encodes r

unfoldable pub AllHandled : (Reply → Bool) → Server → List LoadedLine → Type 0
unfolding handle_line
AllHandled encodes s [] = Unit
AllHandled encodes s (line ∷ lines) =
    (is_writable encodes (handle_line s line) ≡ true) × AllHandled encodes s lines

module _ (encodes : Reply → Bool) (s : Server) where
  run-append :
      (xs ys : List LoadedLine)
      → AllHandled encodes s xs
      → run encodes s (xs ++ ys) ≡ run encodes s xs ++ run encodes s ys
  unfolding run AllHandled
  run-append [] ys a = refl
  run-append (line ∷ xs) ys (a, rest) =
      let same = run-append xs ys rest in
      elim (Option-cases (handle_line s line)) [
        | inl e ↦ ground (arith, same, e, a)
        | inr (none, e) ↦ ground (arith, same, e, a)
        | inr (some r, e) ↦ ground (arith, same, e, a)
      ]

  -- After any lines that are handled and whose answers can be written, broken JSON included: a
  -- well-formed request has an answer under its id, and if that can be written it stands between the
  -- answers to the lines before and those to the lines after it; if it cannot, or if the parser
  -- raises another exception than a `JSONDecodeError`, the session ends, and no line from there on is
  -- answered.
  pub run_lem :
      (xs ys : List LoadedLine) (fs : Fields) (id : Value)
      → AllHandled encodes s xs
      → IsRequest (items fs) id
      → ((r : Reply) × (reply_id r ≡ id)
          × (run encodes s (xs ++ loaded (object fs) ∷ ys)
              ≡ run encodes s xs ++ (if encodes r then r ∷ run encodes s ys else [])))
        × (run encodes s (xs ++ raises ∷ ys) ≡ run encodes s xs)
  unfolding run handle_line
  run_lem xs ys fs id a q =
      let (r, e, same) = handle-IsRequest s fs id q in
      (
        (r, same, run-append xs (loaded (object fs) ∷ ys) a ∙ rw e refl),
        run-append xs (raises ∷ ys) a ∙ append-nil (run encodes s xs),
      )
