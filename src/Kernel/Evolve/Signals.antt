-- ===== src/Kernel/Evolve/Signals.antt =====
-- state.rs: queued signals and the start of a turn.
use peras.Prelude.{
  ◌+◌, Bool, true, false, not, ◌&&◌, none, some, List, [], ◌∷◌, ◌++◌, map, if◌then◌else◌, Text, txt,
  text_eq, put, text_key, retain,
}
use peras.Proto.Envelope.{QuestionId, Seq, Timestamp, Trust, Origin, weakest}
use peras.Proto.Signal.{Signal, submit, steer, queue, notify, wake, silent}
use peras.Proto.Event.{TurnCause, user, queued, continuation, compact}
use peras.Kernel.Data.{Mail, QueueItem, CallGate, Slot, Turn, PendingQuestion, State}
use peras.Kernel.Turns.{new_turn, holds}

-- `position(p)` and `remove(i)`: the first element that passes the test goes.
unfoldable pub remove_first {ℓ} : {A : Type ℓ} → (A → Bool) → List A → List A
remove_first p [] = []
remove_first p (x ∷ xs) = let later = remove_first p xs in if p x then xs else x ∷ later

abbrev pub is_user_item : QueueItem → Bool
is_user_item (QueueItem.user t a) = true
is_user_item (QueueItem.wake source reason) = false

abbrev pub is_wake_item : QueueItem → Bool
is_wake_item (QueueItem.user t a) = false
is_wake_item (QueueItem.wake source reason) = true

user_item_of : Text → QueueItem → Bool
user_item_of t (QueueItem.user u a) = text_eq u t
user_item_of t (QueueItem.wake source reason) = false

wake_item_of : Text → Text → QueueItem → Bool
wake_item_of source reason (QueueItem.user u a) = false
wake_item_of source reason (QueueItem.wake a b) = text_eq a source && text_eq b reason

unfoldable pub on_dropped_signal : Signal → State → State
unfolding user_item_of wake_item_of remove_first
on_dropped_signal (wake source reason) s = record s {
  queue = remove_first (wake_item_of source reason) s.queue;
}
on_dropped_signal (submit t attachments) s = record s {
  queue = remove_first (user_item_of t) s.queue;
}
on_dropped_signal (queue t) s = record s { queue = remove_first (user_item_of t) s.queue }
on_dropped_signal _ s = s

has_key : Text → Mail → Bool
has_key key m = not m.steer && elim m.key [ none ↦ false | some k ↦ text_eq k key ]

-- The first mail of the key takes the new text, and the weaker trust.
merge_mail : Text → Text → Text → Trust → List Mail → List Mail
unfolding has_key
merge_mail source key t trust [] =
    (record {
      source = source;
      key = some key;
      text = t;
      trust = trust;
      origin = Origin.system;
      steer = false;
    })
    ∷ []
merge_mail source key t trust (m ∷ ms) =
    let later = merge_mail source key t trust ms in
    if has_key key m
    then record m { text = t; trust = weakest m.trust trust; source = source } ∷ ms
    else m ∷ later

unfoldable pub on_pending_signal : Signal → State → State
unfolding merge_mail
on_pending_signal (submit t attachments) s = record s {
  queue = s.queue ++ QueueItem.user t attachments ∷ [];
}
on_pending_signal (queue t) s = record s { queue = s.queue ++ QueueItem.user t [] ∷ [] }
on_pending_signal (wake source reason) s = record s {
  queue = s.queue ++ QueueItem.wake source reason ∷ [];
}
on_pending_signal (steer t) s = record s {
  mailbox =
      s.mailbox
      ++ (record {
        source = txt "user";
        key = none;
        text = t;
        trust = Trust.user;
        origin = Origin.user;
        steer = true;
      })
        ∷ [];
}
on_pending_signal (notify source key t untrusted) s = record s {
  mailbox =
      merge_mail source key t (if untrusted then Trust.untrusted source else Trust.guidance)
        s.mailbox;
}
on_pending_signal (silent key value) s = record s { silent = put key value s.silent }

abbrev recheck : CallGate → Bool
recheck CallGate.deferred = true
recheck (CallGate.await_human q none) = true
recheck (CallGate.need_human q) = true
recheck _ = false

-- A call of a suspended turn that waits for a human is checked again.
rechecked : Slot → Slot
rechecked sl =
    if not sl.result && recheck sl.gate then record sl { gate = CallGate.unchecked } else sl

abbrev pub is_continuation : TurnCause → Bool
is_continuation continuation = true
is_continuation _ = false

unfoldable pub resumed_turn : Timestamp → Turn → State → State
unfolding rechecked retain
resumed_turn at t s = record s {
  turn = some (record t { suspended = false; started_at = at; slots = map rechecked t.slots });
  questions = retain (λ (q : QuestionId × PendingQuestion). holds q.1.gate) s.questions;
}

unfoldable pub after_start : TurnCause → State → State
unfolding remove_first
after_start user s = record s { continuations = 0 }
after_start queued s = record s { continuations = 0; queue = remove_first is_user_item s.queue }
after_start TurnCause.wake s = record s {
  continuations = s.continuations + 1;
  queue = remove_first is_wake_item s.queue;
}
after_start continuation s = record s { continuations = s.continuations + 1 }
after_start compact s = s

unfoldable pub started_turn : TurnCause → Timestamp → Seq → State → State
unfolding after_start
started_turn cause at seq s = after_start cause (record s {
  questions = [];
  turns = s.turns + 1;
  turn = some (new_turn (s.turns + 1) cause at seq);
})

unfoldable pub on_turn_started : TurnCause → Timestamp → Seq → State → State
unfolding resumed_turn started_turn
on_turn_started cause at seq s = elim s.turn [
  | none ↦ started_turn cause at seq s
  | some t ↦
      if is_continuation cause && t.suspended
      then resumed_turn at t s
      else started_turn cause at seq s
]
