-- ===== src/Agent/Quiet.antt =====
-- The steps that add a known number of reports of a closed connection to the log.
use diameterapi.Common.{
  ℕ, ◌+◌, ◌≤◌, ◌≡◌, ◌≢◌, refl, ◌∙◌, Bool, true, false, Option, none, some, Error, arith, Bool-cases,
  inl, inr,
}
use diameterapi.Message.Types.{Message}
use diameterapi.Agent.Manager.{PeerStateManager, PeerEventType, notify, is_eof}
use diameterapi.Agent.Run.{notify_reader_error, notify_received}
use diameterapi.Agent.Sending.{is_closed_type, closed_events, IsAfter, IsAfter-log}
use diameterapi.Agent.Loop.{IsKept, IsKept-returned}

pub notify_one :
    (s : PeerStateManager) (t : PeerEventType) (e : Option Error) (m : Option Message)
    → is_closed_type t ≡ 0
    → IsAfter 0 s (notify t e m s)
unfolding closed_events
notify_one s t e m h = IsAfter-log s _ _ refl refl (omega (arith, h))

pub notify_received_quiet :
    (m : Message) (b : Bool) (s : PeerStateManager) → IsAfter 0 s (notify_received m b s)
notify_received_quiet m true s = notify_one s _ none (some m) refl
notify_received_quiet m false s = notify_one s _ none (some m) refl

pub notify_reader_error_quiet :
    (e : Error) (s : PeerStateManager) → IsAfter 0 s (notify_reader_error e s)
notify_reader_error_quiet e s = elim (Bool-cases (is_eof e)) [
  | inl k ↦ rw k (notify_one s _ none none refl)
  | inr k ↦ rw k (notify_one s _ (some e) none refl)
]

pub true_or_false : (b : Bool) → b ≡ true → b ≢ false
true_or_false b t f = cc

pub from_quiet_log :
    (s s' : PeerStateManager) (x : PeerStateManager × Bool)
    → closed_events s'.log ≡ closed_events s.log
    → IsKept s' x
    → IsKept s x
from_quiet_log s s' x h k = record {
  still_open = k.still_open;
  none_closed = λ e. k.none_closed e ∙ h;
  at_most_one = omega (arith, h, k.at_most_one);
}

pub from_quiet :
    (s s' : PeerStateManager) (x : PeerStateManager × Bool)
    → IsAfter 0 s s'
    → IsKept s' x
    → IsKept s x
from_quiet s s' x h k = from_quiet_log s s' x (omega (arith, h.closed)) k

-- The log of `s'` has `n` more events that say that the connection was closed.
abbrev pub Adds : ℕ → PeerStateManager → PeerStateManager → Type 0
Adds n s s' = closed_events s'.log ≡ closed_events s.log + n

pub at_most :
    {n : ℕ} {s s' s'' : PeerStateManager}
    → Adds n s s'
    → IsAfter 0 s' s''
    → n ≤ 1
    → IsKept s (s'', false)
at_most h k l = IsKept-returned _ _ (omega (arith, h, k.closed))
