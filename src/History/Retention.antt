-- ===== src/History/Retention.antt =====
-- history.py, `_prune_sync`: what the deletion and its cascade leave.
use vigil_sre.Prelude.{
  ℕ, Bool, true, false, not, ◌||◌, List, [], ◌∷◌, filter, ltb, ◌==◌, ◌≡◌, refl, ◌∙◌, arith,
  Bool-cases, inl, inr,
}
use vigil_sre.History.{Row, FindingRow, Database, cutoff, has_row, prune_sync}
use vigil_sre.History.Ledger.{Entry, findings_of, entries, view, Distinct, Owned, IsSound}

-- Is the entry younger than the retention?
unfoldable pub is_kept : ℕ → Entry → Bool
is_kept limit e = not (ltb e.0.checked_at limit)

unfoldable Apart : List Row → List Row → Type 0
Apart [] ds = Unit
Apart (r ∷ rs) ds = (has_row r.id ds ≡ false) × Apart rs ds

module _ (p : Row → Bool) where
  has_row-filter_split :
      (n : ℕ) (rs : List Row)
      → has_row n rs ≡ (has_row n (filter p rs) || has_row n (filter (λ (r : Row). not (p r)) rs))
  unfolding has_row
  has_row-filter_split n [] = refl
  has_row-filter_split n (r ∷ rs) = ground (arith, has_row-filter_split n rs)

  has_row-filter : (n : ℕ) (rs : List Row) → has_row n rs ≡ false → has_row n (filter p rs) ≡ false
  has_row-filter n rs h = ground (arith, has_row-filter_split n rs)

  Distinct-filter : (rs : List Row) → Distinct rs → Distinct (filter p rs)
  unfolding Distinct
  Distinct-filter [] d = d
  Distinct-filter (r ∷ rs) (f, d) = elim (Bool-cases (p r)) [
    | inl e ↦ rw e (has_row-filter r.id rs f, Distinct-filter rs d)
    | inr e ↦ rw e (Distinct-filter rs d)
  ]

Apart-cons :
    (r : Row) (ks ds : List Row) → has_row r.id ks ≡ false → Apart ks ds → Apart ks (r ∷ ds)
unfolding Apart has_row
Apart-cons r [] ds h a = a
Apart-cons r (k ∷ ks) ds h (f, a) = (ground arith, Apart-cons r ks ds (ground arith) a)

Apart-filter :
    (p : Row → Bool) (rs : List Row)
    → Distinct rs
    → Apart (filter (λ (r : Row). not (p r)) rs) (filter p rs)
unfolding Apart Distinct
Apart-filter p [] d = d
Apart-filter p (r ∷ rs) (f, d) = elim (Bool-cases (p r)) [
  | inl e ↦
      rw e
        (Apart-cons r _ _ (has_row-filter (λ (r : Row). not (p r)) r.id rs f) (Apart-filter p rs d))
  | inr e ↦ rw e (has_row-filter p r.id rs f, Apart-filter p rs d)
]

-- The cascade.
abbrev cascade : List Row → List FindingRow → List FindingRow
cascade ds fs = filter (λ (f : FindingRow). not (has_row f.probe_id ds)) fs

same_key : (a b : ℕ) (rs : List Row) → (a == b) ≡ true → has_row a rs ≡ has_row b rs
same_key a b rs h = ground arith

findings_of-cascade :
    (n : ℕ) (ds : List Row) (fs : List FindingRow)
    → has_row n ds ≡ false
    → findings_of n (cascade ds fs) ≡ findings_of n fs
unfolding findings_of
findings_of-cascade n ds [] h = refl
findings_of-cascade n ds (f ∷ fs) h =
    ground (arith, findings_of-cascade n ds fs h, same_key f.probe_id n ds)

entries-cascade :
    (ks ds : List Row) (fs : List FindingRow)
    → Apart ks ds
    → entries (cascade ds fs) ks ≡ entries fs ks
unfolding entries Apart
entries-cascade [] ds fs a = refl
entries-cascade (k ∷ ks) ds fs (h, a) =
    rw (findings_of-cascade k.id ds fs h, entries-cascade ks ds fs a) refl

entries-filter :
    (limit : ℕ) (fs : List FindingRow) (rs : List Row)
    → entries fs (filter (λ (r : Row). not (ltb r.columns.checked_at limit)) rs)
      ≡ filter (is_kept limit) (entries fs rs)
unfolding entries is_kept
entries-filter limit fs [] = refl
entries-filter limit fs (r ∷ rs) = elim (Bool-cases (ltb r.columns.checked_at limit)) [
  | inl e ↦ rw e (entries-filter limit fs rs)
  | inr e ↦ rw (e, entries-filter limit fs rs) refl
]

Owned-cascade :
    (p : Row → Bool) (rs : List Row) (fs : List FindingRow)
    → Owned rs fs
    → Owned (filter (λ (r : Row). not (p r)) rs) (cascade (filter p rs) fs)
unfolding Owned
Owned-cascade p rs [] o = o
Owned-cascade p rs (f ∷ fs) (h, o) = elim (Bool-cases (has_row f.probe_id (filter p rs))) [
  | inl e ↦ rw e (Owned-cascade p rs fs o)
  | inr e ↦ rw e (ground (arith, has_row-filter_split p f.probe_id rs), Owned-cascade p rs fs o)
]

pub prune_sync-IsSound :
    (days now : ℕ) (db : Database) → IsSound db → IsSound (prune_sync days now db)
unfolding IsSound prune_sync
prune_sync-IsSound days now db (d, o) =
    (Distinct-filter _ db.results d, Owned-cascade _ db.results db.findings o)

pub view-prune_sync :
    (days now : ℕ) (db : Database)
    → IsSound db
    → view (prune_sync days now db) ≡ filter (is_kept (cutoff days now)) (view db)
unfolding IsSound view prune_sync
view-prune_sync days now db (d, o) =
    entries-cascade _ _ db.findings (Apart-filter _ db.results d)
    ∙ entries-filter (cutoff days now) db.findings db.results
