-- ===== src/State/Announce/Outage.antt =====
-- main.py: an outage that nobody heard of is announced when it ends.
use vigil_sre.Prelude.{ℕ, String, ◌≡◌, Bool, true, false, some, List, [], ◌∷◌}
use vigil_sre.State.Record.{Status, up, down, at, UrlState}
use vigil_sre.State.Manager.{missed_outage}
use vigil_sre.State.Observe.{failed}
use vigil_sre.State.Rounds.{Turn}

-- A target that is DOWN since `start`, and whose alert reached nobody.
record Unheard (start : ℕ) (r : UrlState) : Type 0 where
  same : r.status ≡ down
  since : r.last_changed ≡ at start
  notified : r.notification_status ≡ some up
  owed : r.alert_pending ≡ some true

-- A failed round whose alert, if one is due, reaches nobody.
abbrev pub IsLost : Turn → Type 0
IsLost t = ((error : String) × (t.seen ≡ failed error)) × (t.reached ≡ false)

abbrev pub AllLost : List Turn → Type 0
AllLost [] = Unit
AllLost (t ∷ ts) = IsLost t × AllLost ts

-- The observation that ends such an outage.
record Ends (start now : ℕ) (k : Status) (alert : Bool) (r : UrlState) : Type 0 where
  due : alert ≡ true
  missed : r.missed_outage ≡ some (record { start = at start; end = at now })
  same : r.status ≡ k
