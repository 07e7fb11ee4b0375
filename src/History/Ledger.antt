-- ===== src/History/Ledger.antt =====
-- history.py: the two tables hold a list of outcomes with their findings.
use vigil_sre.Prelude.{
  ℕ, suc, ◌≤◌, true, false, List, [], ◌∷◌, ◌++◌, map, ◌==◌, ==_true, if◌then◌else◌, ◌≡◌, refl,
  arith, Bool-cases, inl, inr,
}
use mathlib.Core.List.{append-nil}
use vigil_sre.Diagnostics.Findings.{Diagnosis}
use vigil_sre.History.{
  Recorded, Columns, Row, FindingRow, Database, columns_of, max_id, finding_row, insert_outcome,
  has_row,
}

-- What is on record of one probe.
abbrev pub Entry : Type 0
Entry = Columns × List Diagnosis

unfoldable pub findings_of : ℕ → List FindingRow → List Diagnosis
findings_of n [] = []
findings_of n (f ∷ fs) =
    let rest = findings_of n fs in if f.probe_id == n then f.finding ∷ rest else rest

unfoldable pub entries : List FindingRow → List Row → List Entry
unfolding findings_of
entries fs [] = []
entries fs (r ∷ rs) = (r.columns, findings_of r.id fs) ∷ entries fs rs

-- The join of the two tables.
unfoldable pub view : Database → List Entry
unfolding entries
view db = entries db.findings db.results

-- No two rows with one key.
unfoldable pub Distinct : List Row → Type 0
Distinct [] = Unit
Distinct (r ∷ rs) = (has_row r.id rs ≡ false) × Distinct rs

-- Every finding refers to a row.
unfoldable pub Owned : List Row → List FindingRow → Type 0
Owned rs [] = Unit
Owned rs (f ∷ fs) = (has_row f.probe_id rs ≡ true) × Owned rs fs

unfoldable pub IsSound : Database → Type 0
unfolding Distinct Owned
IsSound db = Distinct db.results × Owned db.results db.findings

has_row_bound : (n : ℕ) (rs : List Row) → has_row n rs ≡ true → n ≤ max_id rs
unfolding has_row max_id
has_row_bound n [] h = cc
has_row_bound n (r ∷ rs) h = ground (arith, has_row_bound n rs)

fresh_lem : (rs : List Row) → has_row (suc (max_id rs)) rs ≡ false
fresh_lem rs = ground (arith, has_row_bound (suc (max_id rs)) rs)

findings_of-finding_row :
    (n k : ℕ) (ds : List Diagnosis) (fs : List FindingRow)
    → findings_of n (map (finding_row k) ds ++ fs)
      ≡ (if k == n then ds ++ findings_of n fs else findings_of n fs)
unfolding findings_of
findings_of-finding_row n k [] fs = ground arith
findings_of-finding_row n k (d ∷ ds) fs = ground (arith, findings_of-finding_row n k ds fs)

findings_of-none :
    (n : ℕ) (rs : List Row) (fs : List FindingRow)
    → Owned rs fs
    → has_row n rs ≡ false
    → findings_of n fs ≡ []
unfolding findings_of Owned
findings_of-none n rs [] o h = refl
findings_of-none n rs (f ∷ fs) (p, o) h = elim (Bool-cases (f.probe_id == n)) [
  | inl e ↦ ground (arith, other e)
  | inr e ↦ rw e (findings_of-none n rs fs o h)
]
  where
    other : (f.probe_id == n) ≡ true → has_row f.probe_id rs ≡ has_row n rs
    other e = ground arith

-- New findings of a key without a row change no entry.
entries-fresh :
    (k : ℕ) (ds : List Diagnosis) (fs : List FindingRow) (rs : List Row)
    → has_row k rs ≡ false
    → entries (map (finding_row k) ds ++ fs) rs ≡ entries fs rs
unfolding entries has_row
entries-fresh k ds fs [] h = refl
entries-fresh k ds fs (r ∷ rs) h =
    ground (arith, findings_of-finding_row r.id k ds fs, entries-fresh k ds fs rs)

Owned-cons : (r : Row) (rs : List Row) (fs : List FindingRow) → Owned rs fs → Owned (r ∷ rs) fs
unfolding Owned has_row
Owned-cons r rs [] o = o
Owned-cons r rs (f ∷ fs) (p, o) = (ground arith, Owned-cons r rs fs o)

Owned-finding_row :
    (r : Row) (rs : List Row) (ds : List Diagnosis) (fs : List FindingRow)
    → Owned rs fs
    → Owned (r ∷ rs) (map (finding_row r.id) ds ++ fs)
unfolding Owned has_row
Owned-finding_row r rs [] fs o = Owned-cons r rs fs o
Owned-finding_row r rs (d ∷ ds) fs o = (ground arith, Owned-finding_row r rs ds fs o)

pub insert_outcome-IsSound :
    (t : ℕ) (o : Recorded) (db : Database) → IsSound db → IsSound (insert_outcome t o db)
unfolding IsSound Distinct insert_outcome
insert_outcome-IsSound t o db (d, w) =
    let r : Row = record { id = suc (max_id db.results); columns = columns_of t o } in
    ((fresh_lem db.results, d), Owned-finding_row r db.results o.findings db.findings w)

pub view-insert_outcome :
    (t : ℕ) (o : Recorded) (db : Database)
    → IsSound db
    → view (insert_outcome t o db) ≡ (columns_of t o, o.findings) ∷ view db
unfolding IsSound view entries insert_outcome
view-insert_outcome t o db (d, w) =
    let n = suc (max_id db.results) in
    let fresh = fresh_lem db.results in
    rw
      (
        findings_of-finding_row n n o.findings db.findings,
        ==_true n n refl,
        findings_of-none n db.results db.findings w fresh,
        append-nil o.findings,
        entries-fresh n o.findings db.findings db.results fresh,
      )
      refl
